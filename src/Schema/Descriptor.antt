-- ===== src/Schema/Descriptor.antt =====
-- crates/nnrp-core/src/schema.rs: the metadata of schema descriptors.
pub mod RoundTrip
mod Tests
use nnrp_rs.Base.{ℕ, ◌≡◌, ◌≤◌, List, [], ◌∷◌, ◌++◌, replicate, length}
use nnrp_rs.Error.{Result, ok, err, ◌>>=◌, ◌>>◌, reject_if}
use nnrp_rs.Wire.{
  Write, writes, write_u8, write_u16, write_u32, write_u64, read_u16, read_u32, read_u64,
  require_len, require_destination_len, validate_zero, validate_mask, require_declared_len,
  split_declared_tail,
}
use nnrp_rs.Wire.Buffer.{byte_at}

abbrev pub metadata_len : ℕ
metadata_len = 32

abbrev pub flags_known_mask : ℕ
flags_known_mask = 0xf

pub record SchemaDescriptorHeader : Type 0 where
  pub schema_id : ℕ
  pub schema_version : ℕ
  pub profile_id : ℕ
  pub schema_flags : ℕ
  pub min_version_major : ℕ
  pub max_version_major : ℕ
  pub body_bytes : ℕ
  pub dependency_count : ℕ
  pub default_stream_semantics : ℕ
  pub schema_hash : ℕ

-- The literal that `parse` ends with.
pub read_fields : List ℕ → SchemaDescriptorHeader
read_fields source = record {
  schema_id = read_u32 source 0;
  schema_version = read_u32 source 4;
  profile_id = read_u16 source 8;
  schema_flags = read_u16 source 10;
  min_version_major = byte_at source 12;
  max_version_major = byte_at source 13;
  body_bytes = read_u32 source 16;
  dependency_count = read_u16 source 20;
  default_stream_semantics = read_u16 source 22;
  schema_hash = read_u64 source 24;
}

pub parse : List ℕ → Result SchemaDescriptorHeader
parse source = do
  require_len source metadata_len
  validate_zero "schema_descriptor.reserved0" (read_u16 source 14)
  validate_mask 16 (read_u16 source 10) flags_known_mask
  ok (read_fields source)

-- The writes of `write`, in order.
field_writes : SchemaDescriptorHeader → List Write
field_writes m =
    (0, replicate metadata_len 0)
    ∷ write_u32 0 m.schema_id
    ∷ write_u32 4 m.schema_version
    ∷ write_u16 8 m.profile_id
    ∷ write_u16 10 m.schema_flags
    ∷ write_u8 12 m.min_version_major
    ∷ write_u8 13 m.max_version_major
    ∷ write_u32 16 m.body_bytes
    ∷ write_u16 20 m.dependency_count
    ∷ write_u16 22 m.default_stream_semantics
    ∷ write_u64 24 m.schema_hash
    ∷ []

copy_fields : SchemaDescriptorHeader → List ℕ → List ℕ
unfolding field_writes
copy_fields m destination = writes (field_writes m) destination

-- The buffer after the call, where it succeeds.
pub write : SchemaDescriptorHeader → List ℕ → Result (List ℕ)
write m destination = do
  require_destination_len destination metadata_len
  validate_mask 16 m.schema_flags flags_known_mask
  ok (copy_fields m destination)

pub to_bytes : SchemaDescriptorHeader → Result (List ℕ)
unfolding write copy_fields
to_bytes m = write m (replicate metadata_len 0)
