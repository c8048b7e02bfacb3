-- ===== src/Control/PartialResult.antt =====
-- crates/nnrp-core/src/control.rs: the metadata of PARTIAL_RESULT.
pub mod RoundTrip
pub mod Tail
mod Tests
use nnrp_rs.Base.{ℕ, List, [], ◌∷◌, ◌++◌, replicate, length}
use nnrp_rs.Error.{Result, ok, ◌>>=◌, ◌>>◌}
use nnrp_rs.Wire.{
  Write, writes, write_u32, write_u64, read_u32, read_u64, require_len, require_destination_len,
  validate_mask, require_declared_len, split_declared_tail,
}

abbrev pub metadata_len : ℕ
metadata_len = 40

abbrev pub flags_known_mask : ℕ
flags_known_mask = 0x3

pub record PartialResultMetadata : Type 0 where
  pub operation_id : ℕ
  pub result_sequence : ℕ
  pub object_id : ℕ
  pub delta_sequence : ℕ
  pub body_bytes : ℕ
  pub flags : ℕ

-- The literal that `parse` ends with.
pub read_fields : List ℕ → PartialResultMetadata
read_fields source = record {
  operation_id = read_u64 source 0;
  result_sequence = read_u64 source 8;
  object_id = read_u64 source 16;
  delta_sequence = read_u64 source 24;
  body_bytes = read_u32 source 32;
  flags = read_u32 source 36;
}

pub parse : List ℕ → Result PartialResultMetadata
parse source = do
  require_len source metadata_len
  validate_mask 32 (read_u32 source 36) flags_known_mask
  ok (read_fields source)

-- The writes of `write`, in order.
field_writes : PartialResultMetadata → List Write
field_writes m =
    write_u64 0 m.operation_id
    ∷ write_u64 8 m.result_sequence
    ∷ write_u64 16 m.object_id
    ∷ write_u64 24 m.delta_sequence
    ∷ write_u32 32 m.body_bytes
    ∷ write_u32 36 m.flags
    ∷ []

copy_fields : PartialResultMetadata → List ℕ → List ℕ
unfolding field_writes
copy_fields m destination = writes (field_writes m) destination

-- The buffer after the call, where it succeeds.
pub write : PartialResultMetadata → List ℕ → Result (List ℕ)
write m destination = do
  require_destination_len destination metadata_len
  validate_mask 32 m.flags flags_known_mask
  ok (copy_fields m destination)

pub to_bytes : PartialResultMetadata → Result (List ℕ)
unfolding write copy_fields
to_bytes m = write m (replicate metadata_len 0)

-- The metadata and what stands behind it.
pub parse_with_body : List ℕ → Result (PartialResultMetadata × List ℕ)
parse_with_body source = do
  metadata ← parse source
  body ← split_declared_tail source metadata_len metadata.body_bytes "partial_result.body_bytes"
  ok (metadata, body)

pub to_vec_with_body : PartialResultMetadata → List ℕ → Result (List ℕ)
to_vec_with_body m body = do
  require_declared_len "partial_result.body_bytes" m.body_bytes (length body)
  bytes ← to_bytes m
  ok (bytes ++ body)
