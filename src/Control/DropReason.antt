-- ===== src/Control/DropReason.antt =====
-- crates/nnrp-core/src/control.rs: the metadata of RESULT_DROP_REASON.
pub mod RoundTrip
pub mod Tail
mod Tests
use nnrp_rs.Base.{ℕ, List, [], ◌∷◌, ◌++◌, replicate, length}
use nnrp_rs.Error.{Result, ok, ◌>>=◌, ◌>>◌}
use nnrp_rs.Wire.{
  Write, writes, write_u8, write_u16, write_u32, write_u64, read_u16, read_u32, read_u64,
  require_len, require_destination_len, validate_zero, validate_mask, require_declared_len,
  split_declared_tail,
}
use nnrp_rs.Wire.Buffer.{byte_at}

abbrev pub metadata_len : ℕ
metadata_len = 32

abbrev pub flags_known_mask : ℕ
flags_known_mask = 0x3

pub record ResultDropReasonMetadata : Type 0 where
  pub operation_id : ℕ
  pub result_sequence : ℕ
  pub drop_reason_code : ℕ
  pub source_role : ℕ
  pub flags : ℕ
  pub diagnostic_bytes : ℕ

-- The literal that `parse` ends with.
pub read_fields : List ℕ → ResultDropReasonMetadata
read_fields source = record {
  operation_id = read_u64 source 0;
  result_sequence = read_u64 source 8;
  drop_reason_code = read_u16 source 16;
  source_role = byte_at source 18;
  flags = byte_at source 19;
  diagnostic_bytes = read_u32 source 20;
}

pub parse : List ℕ → Result ResultDropReasonMetadata
parse source = do
  require_len source metadata_len
  validate_mask 8 (byte_at source 19) flags_known_mask
  validate_zero "result_drop_reason.reserved" (read_u64 source 24)
  ok (read_fields source)

-- The writes of `write`, in order.
field_writes : ResultDropReasonMetadata → List Write
field_writes m =
    (0, replicate metadata_len 0)
    ∷ write_u64 0 m.operation_id
    ∷ write_u64 8 m.result_sequence
    ∷ write_u16 16 m.drop_reason_code
    ∷ write_u8 18 m.source_role
    ∷ write_u8 19 m.flags
    ∷ write_u32 20 m.diagnostic_bytes
    ∷ []

copy_fields : ResultDropReasonMetadata → List ℕ → List ℕ
unfolding field_writes
copy_fields m destination = writes (field_writes m) destination

-- The buffer after the call, where it succeeds.
pub write : ResultDropReasonMetadata → List ℕ → Result (List ℕ)
write m destination = do
  require_destination_len destination metadata_len
  validate_mask 8 m.flags flags_known_mask
  ok (copy_fields m destination)

pub to_bytes : ResultDropReasonMetadata → Result (List ℕ)
unfolding write copy_fields
to_bytes m = write m (replicate metadata_len 0)

-- The metadata and what stands behind it.
pub parse_with_diagnostics : List ℕ → Result (ResultDropReasonMetadata × List ℕ)
parse_with_diagnostics source = do
  metadata ← parse source
  diagnostics ←
      split_declared_tail source metadata_len metadata.diagnostic_bytes
        "result_drop_reason.diagnostic_bytes"
  ok (metadata, diagnostics)

pub to_vec_with_diagnostics : ResultDropReasonMetadata → List ℕ → Result (List ℕ)
to_vec_with_diagnostics m diagnostics = do
  require_declared_len "result_drop_reason.diagnostic_bytes" m.diagnostic_bytes (length diagnostics)
  bytes ← to_bytes m
  ok (bytes ++ diagnostics)
