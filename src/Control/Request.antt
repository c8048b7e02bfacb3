-- ===== src/Control/Request.antt =====
-- crates/nnrp-core/src/control.rs: the metadata of CANCEL and ABORT.
pub mod RoundTrip
pub mod Tail
mod Tests
use nnrp_rs.Base.{ℕ, List, [], ◌∷◌, ◌++◌, replicate, length}
use nnrp_rs.Error.{Result, ok, ◌>>=◌, ◌>>◌}
use nnrp_rs.Wire.{
  Write, writes, write_u8, write_u16, write_u32, write_u64, read_u16, read_u32, read_u64,
  require_len, require_destination_len, validate_zero, validate_mask, require_declared_len,
  split_declared_tail,
}
use nnrp_rs.Wire.Buffer.{byte_at}

abbrev pub metadata_len : ℕ
metadata_len = 32

abbrev pub flags_known_mask : ℕ
flags_known_mask = 0x3

pub record ControlRequestMetadata : Type 0 where
  pub operation_id : ℕ
  pub control_sequence : ℕ
  pub reason_code : ℕ
  pub source_role : ℕ
  pub flags : ℕ
  pub diagnostic_bytes : ℕ

-- The literal that `parse` ends with.
pub read_fields : List ℕ → ControlRequestMetadata
read_fields source = record {
  operation_id = read_u64 source 0;
  control_sequence = read_u64 source 8;
  reason_code = read_u16 source 16;
  source_role = byte_at source 18;
  flags = byte_at source 19;
  diagnostic_bytes = read_u32 source 20;
}

pub parse : List ℕ → Result ControlRequestMetadata
parse source = do
  require_len source metadata_len
  validate_mask 8 (byte_at source 19) flags_known_mask
  validate_zero "control_request.reserved" (read_u64 source 24)
  ok (read_fields source)

-- The writes of `write`, in order.
field_writes : ControlRequestMetadata → List Write
field_writes m =
    (0, replicate metadata_len 0)
    ∷ write_u64 0 m.operation_id
    ∷ write_u64 8 m.control_sequence
    ∷ write_u16 16 m.reason_code
    ∷ write_u8 18 m.source_role
    ∷ write_u8 19 m.flags
    ∷ write_u32 20 m.diagnostic_bytes
    ∷ []

copy_fields : ControlRequestMetadata → List ℕ → List ℕ
unfolding field_writes
copy_fields m destination = writes (field_writes m) destination

-- The buffer after the call, where it succeeds.
pub write : ControlRequestMetadata → List ℕ → Result (List ℕ)
write m destination = do
  require_destination_len destination metadata_len
  validate_mask 8 m.flags flags_known_mask
  ok (copy_fields m destination)

pub to_bytes : ControlRequestMetadata → Result (List ℕ)
unfolding write copy_fields
to_bytes m = write m (replicate metadata_len 0)

-- The metadata and what stands behind it.
pub parse_with_diagnostics : List ℕ → Result (ControlRequestMetadata × List ℕ)
parse_with_diagnostics source = do
  metadata ← parse source
  diagnostics ←
      split_declared_tail source metadata_len metadata.diagnostic_bytes
        "control_request.diagnostic_bytes"
  ok (metadata, diagnostics)

pub to_vec_with_diagnostics : ControlRequestMetadata → List ℕ → Result (List ℕ)
to_vec_with_diagnostics m diagnostics = do
  require_declared_len "control_request.diagnostic_bytes" m.diagnostic_bytes (length diagnostics)
  bytes ← to_bytes m
  ok (bytes ++ diagnostics)
