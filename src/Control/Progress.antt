-- ===== src/Control/Progress.antt =====
-- crates/nnrp-core/src/control.rs: the metadata of PROGRESS.
pub mod RoundTrip
pub mod Tail
mod Tests
use nnrp_rs.Base.{ℕ, List, [], ◌∷◌, ◌++◌, replicate, length}
use nnrp_rs.Error.{Result, ok, ◌>>=◌, ◌>>◌}
use nnrp_rs.Wire.{
  Write, writes, write_u16, write_u32, write_u64, read_u16, read_u32, read_u64, require_len,
  require_destination_len, require_declared_len, split_declared_tail,
}
use nnrp_rs.Control.Checks.{validate_percent_x100}

abbrev pub metadata_len : ℕ
metadata_len = 32

pub record ProgressMetadata : Type 0 where
  pub operation_id : ℕ
  pub progress_sequence : ℕ
  pub stage_code : ℕ
  pub percent_x100 : ℕ
  pub object_id : ℕ
  pub body_bytes : ℕ

-- The literal that `parse` ends with.
pub read_fields : List ℕ → ProgressMetadata
read_fields source = record {
  operation_id = read_u64 source 0;
  progress_sequence = read_u64 source 8;
  stage_code = read_u16 source 16;
  percent_x100 = read_u16 source 18;
  object_id = read_u64 source 20;
  body_bytes = read_u32 source 28;
}

pub parse : List ℕ → Result ProgressMetadata
parse source = do
  require_len source metadata_len
  validate_percent_x100 (read_u16 source 18)
  ok (read_fields source)

-- The writes of `write`, in order.
field_writes : ProgressMetadata → List Write
field_writes m =
    write_u64 0 m.operation_id
    ∷ write_u64 8 m.progress_sequence
    ∷ write_u16 16 m.stage_code
    ∷ write_u16 18 m.percent_x100
    ∷ write_u64 20 m.object_id
    ∷ write_u32 28 m.body_bytes
    ∷ []

copy_fields : ProgressMetadata → List ℕ → List ℕ
unfolding field_writes
copy_fields m destination = writes (field_writes m) destination

-- The buffer after the call, where it succeeds.
pub write : ProgressMetadata → List ℕ → Result (List ℕ)
write m destination = do
  require_destination_len destination metadata_len
  validate_percent_x100 m.percent_x100
  ok (copy_fields m destination)

pub to_bytes : ProgressMetadata → Result (List ℕ)
unfolding write copy_fields
to_bytes m = write m (replicate metadata_len 0)

-- The metadata and what stands behind it.
pub parse_with_body : List ℕ → Result (ProgressMetadata × List ℕ)
parse_with_body source = do
  metadata ← parse source
  body ← split_declared_tail source metadata_len metadata.body_bytes "progress.body_bytes"
  ok (metadata, body)

pub to_vec_with_body : ProgressMetadata → List ℕ → Result (List ℕ)
to_vec_with_body m body = do
  require_declared_len "progress.body_bytes" m.body_bytes (length body)
  bytes ← to_bytes m
  ok (bytes ++ body)
