-- ===== src/Control/Supersede.antt =====
-- crates/nnrp-core/src/control.rs: the metadata of SUPERSEDE.
pub mod RoundTrip
pub mod Tail
mod Tests
use nnrp_rs.Base.{ℕ, List, [], ◌∷◌, ◌++◌, replicate, length}
use nnrp_rs.Error.{Result, ok, ◌>>=◌, ◌>>◌}
use nnrp_rs.Wire.{
  Write, writes, write_u16, write_u32, write_u64, read_u16, read_u32, read_u64, require_len,
  require_destination_len, validate_mask, require_declared_len, split_declared_tail,
}

abbrev pub metadata_len : ℕ
metadata_len = 32

abbrev pub flags_known_mask : ℕ
flags_known_mask = 0x1

pub record SupersedeMetadata : Type 0 where
  pub old_operation_id : ℕ
  pub new_operation_id : ℕ
  pub control_sequence : ℕ
  pub drop_reason_code : ℕ
  pub flags : ℕ
  pub diagnostic_bytes : ℕ

-- The literal that `parse` ends with.
pub read_fields : List ℕ → SupersedeMetadata
read_fields source = record {
  old_operation_id = read_u64 source 0;
  new_operation_id = read_u64 source 8;
  control_sequence = read_u64 source 16;
  drop_reason_code = read_u16 source 24;
  flags = read_u16 source 26;
  diagnostic_bytes = read_u32 source 28;
}

pub parse : List ℕ → Result SupersedeMetadata
parse source = do
  require_len source metadata_len
  validate_mask 16 (read_u16 source 26) flags_known_mask
  ok (read_fields source)

-- The writes of `write`, in order.
field_writes : SupersedeMetadata → List Write
field_writes m =
    write_u64 0 m.old_operation_id
    ∷ write_u64 8 m.new_operation_id
    ∷ write_u64 16 m.control_sequence
    ∷ write_u16 24 m.drop_reason_code
    ∷ write_u16 26 m.flags
    ∷ write_u32 28 m.diagnostic_bytes
    ∷ []

copy_fields : SupersedeMetadata → List ℕ → List ℕ
unfolding field_writes
copy_fields m destination = writes (field_writes m) destination

-- The buffer after the call, where it succeeds.
pub write : SupersedeMetadata → List ℕ → Result (List ℕ)
write m destination = do
  require_destination_len destination metadata_len
  validate_mask 16 m.flags flags_known_mask
  ok (copy_fields m destination)

pub to_bytes : SupersedeMetadata → Result (List ℕ)
unfolding write copy_fields
to_bytes m = write m (replicate metadata_len 0)

-- The metadata and what stands behind it.
pub parse_with_diagnostics : List ℕ → Result (SupersedeMetadata × List ℕ)
parse_with_diagnostics source = do
  metadata ← parse source
  diagnostics ←
      split_declared_tail source metadata_len metadata.diagnostic_bytes "supersede.diagnostic_bytes"
  ok (metadata, diagnostics)

pub to_vec_with_diagnostics : SupersedeMetadata → List ℕ → Result (List ℕ)
to_vec_with_diagnostics m diagnostics = do
  require_declared_len "supersede.diagnostic_bytes" m.diagnostic_bytes (length diagnostics)
  bytes ← to_bytes m
  ok (bytes ++ diagnostics)
