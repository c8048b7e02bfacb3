-- ===== src/Schema/Descriptor/Tests.antt =====
-- The metadata of SchemaDescriptorHeader on the wire, at one value.
use nnrp_rs.Base.{ℕ, ◌≡◌, refl, List, [], ◌∷◌, replicate}
use nnrp_rs.Error.{ok}
use nnrp_rs.Wire.Little.{IsByte}
use nnrp_rs.Schema.Descriptor.{SchemaDescriptorHeader, parse, write, copy_fields, read_fields}

abbrev example : SchemaDescriptorHeader
example = record {
  schema_id = 514;
  schema_version = 3;
  profile_id = 260;
  schema_flags = 1;
  min_version_major = 1;
  max_version_major = 1;
  body_bytes = 517;
  dependency_count = 6;
  default_stream_semantics = 263;
  schema_hash = 520;
}

abbrev example_bytes : List ℕ
example_bytes =
    2 ∷ 2 ∷ 0 ∷ 0 ∷ 3 ∷ 0 ∷ 0 ∷ 0 ∷ 4 ∷ 1 ∷ 1 ∷ 0 ∷ 1 ∷ 1 ∷ 0 ∷ 0 ∷ 5 ∷ 2 ∷ 0 ∷ 0 ∷ 6 ∷ 0 ∷ 7 ∷ 1
    ∷ 8 ∷ 2 ∷ 0 ∷ 0 ∷ 0 ∷ 0 ∷ 0 ∷ 0 ∷ []

example_written : write example (replicate 32 0xff) ≡ ok example_bytes
unfolding write copy_fields nnrp_rs.Wire.validate_mask
example_written = refl

example_parsed : parse example_bytes ≡ ok example
unfolding parse read_fields nnrp_rs.Wire.read_u16 nnrp_rs.Wire.Little.from_le
    nnrp_rs.Wire.validate_mask nnrp_rs.Wire.read_u32 nnrp_rs.Wire.Buffer.byte_at
    nnrp_rs.Wire.read_u64
example_parsed = refl
