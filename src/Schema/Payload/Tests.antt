-- ===== src/Schema/Payload/Tests.antt =====
-- The metadata of TypedPayloadDescriptor on the wire, at one value.
use nnrp_rs.Base.{ℕ, ◌≡◌, refl, List, [], ◌∷◌, replicate}
use nnrp_rs.Error.{ok}
use nnrp_rs.Enums.PayloadKind
use nnrp_rs.Enums.PayloadKind.{PayloadKind}
use nnrp_rs.Wire.Little.{IsByte}
use nnrp_rs.Schema.Payload.{TypedPayloadDescriptor, parse, write, copy_fields, read_fields}

abbrev example : TypedPayloadDescriptor
example = record {
  profile_id = 514;
  payload_kind = PayloadKind.tensor;
  descriptor_flags = 1;
  schema_id = 3;
  schema_version = 260;
  stream_semantics = 517;
  offset = 6;
  length = 263;
}

abbrev example_bytes : List ℕ
example_bytes =
    2 ∷ 2 ∷ 1 ∷ 1 ∷ 3 ∷ 0 ∷ 0 ∷ 0 ∷ 4 ∷ 1 ∷ 0 ∷ 0 ∷ 5 ∷ 2 ∷ 0 ∷ 0 ∷ 6 ∷ 0 ∷ 0 ∷ 0 ∷ 7 ∷ 1 ∷ 0 ∷ 0
    ∷ []

example_written : write example (replicate 24 0xff) ≡ ok example_bytes
unfolding write copy_fields nnrp_rs.Wire.validate_mask PayloadKind.as_u8
example_written = refl

example_parsed : parse example_bytes ≡ ok example
unfolding parse read_fields nnrp_rs.Wire.read_u16 nnrp_rs.Wire.Little.from_le
    PayloadKind.try_from_bit nnrp_rs.Wire.Buffer.byte_at nnrp_rs.Wire.validate_mask
    nnrp_rs.Wire.read_u32
example_parsed = refl
