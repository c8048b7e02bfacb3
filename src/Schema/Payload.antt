-- ===== src/Schema/Payload.antt =====
-- crates/nnrp-core/src/schema.rs: the metadata of typed payloads.
pub mod RoundTrip
mod Tests
use nnrp_rs.Base.{ℕ, ◌≡◌, ◌≤◌, List, [], ◌∷◌, ◌++◌, replicate, length}
use nnrp_rs.Error.{Result, ok, err, ◌>>=◌, ◌>>◌, reject_if}
use nnrp_rs.Enums.PayloadKind
use nnrp_rs.Enums.PayloadKind.{PayloadKind}
use nnrp_rs.Wire.{
  Write, writes, write_u8, write_u16, write_u32, write_u64, read_u16, read_u32, read_u64,
  require_len, require_destination_len, validate_zero, validate_mask, require_declared_len,
  split_declared_tail,
}
use nnrp_rs.Wire.Buffer.{byte_at}

abbrev pub metadata_len : ℕ
metadata_len = 24

abbrev pub flags_known_mask : ℕ
flags_known_mask = 0xf

pub record TypedPayloadDescriptor : Type 0 where
  pub profile_id : ℕ
  pub payload_kind : PayloadKind
  pub descriptor_flags : ℕ
  pub schema_id : ℕ
  pub schema_version : ℕ
  pub stream_semantics : ℕ
  pub offset : ℕ
  pub length : ℕ

-- The literal that `parse` ends with.
pub read_fields : List ℕ → PayloadKind → TypedPayloadDescriptor
read_fields source payload_kind = record {
  profile_id = read_u16 source 0;
  payload_kind = payload_kind;
  descriptor_flags = byte_at source 3;
  schema_id = read_u32 source 4;
  schema_version = read_u32 source 8;
  stream_semantics = read_u16 source 12;
  offset = read_u32 source 16;
  length = read_u32 source 20;
}

pub parse : List ℕ → Result TypedPayloadDescriptor
parse source = do
  require_len source metadata_len
  validate_zero "typed_payload_descriptor.reserved0" (read_u16 source 14)
  payload_kind ← PayloadKind.try_from_bit (byte_at source 2)
  validate_mask 8 (byte_at source 3) flags_known_mask
  ok (read_fields source payload_kind)

-- The writes of `write`, in order.
field_writes : TypedPayloadDescriptor → List Write
field_writes m =
    (0, replicate metadata_len 0)
    ∷ write_u16 0 m.profile_id
    ∷ write_u8 2 (PayloadKind.as_u8 m.payload_kind)
    ∷ write_u8 3 m.descriptor_flags
    ∷ write_u32 4 m.schema_id
    ∷ write_u32 8 m.schema_version
    ∷ write_u16 12 m.stream_semantics
    ∷ write_u32 16 m.offset
    ∷ write_u32 20 m.length
    ∷ []

copy_fields : TypedPayloadDescriptor → List ℕ → List ℕ
unfolding field_writes
copy_fields m destination = writes (field_writes m) destination

-- The buffer after the call, where it succeeds.
pub write : TypedPayloadDescriptor → List ℕ → Result (List ℕ)
write m destination = do
  require_destination_len destination metadata_len
  validate_mask 8 m.descriptor_flags flags_known_mask
  ok (copy_fields m destination)

pub to_bytes : TypedPayloadDescriptor → Result (List ℕ)
unfolding write copy_fields
to_bytes m = write m (replicate metadata_len 0)
