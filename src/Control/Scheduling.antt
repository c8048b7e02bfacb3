-- ===== src/Control/Scheduling.antt =====
-- crates/nnrp-core/src/control.rs: the metadata of PRIORITY_UPDATE, DEADLINE and EXPIRE_AT.
pub mod RoundTrip
mod Tests
use nnrp_rs.Base.{ℕ, List, [], ◌∷◌, replicate}
use nnrp_rs.Error.{Result, ok, ◌>>=◌, ◌>>◌}
use nnrp_rs.Wire.{
  Write, writes, write_u16, write_u32, write_u64, read_u16, read_u32, read_u64, require_len,
  require_destination_len, validate_mask,
}

abbrev pub metadata_len : ℕ
metadata_len = 32

abbrev pub flags_known_mask : ℕ
flags_known_mask = 0x3

abbrev pub scheduling_flag_discard_stale : ℕ
scheduling_flag_discard_stale = 0x1

pub record SchedulingMetadata : Type 0 where
  pub operation_id : ℕ
  pub control_sequence : ℕ
  pub priority_class : ℕ
  pub priority_delta : ℕ
  pub deadline_unix_ms : ℕ
  pub flags : ℕ

-- The literal that `parse` ends with.
pub read_fields : List ℕ → SchedulingMetadata
read_fields source = record {
  operation_id = read_u64 source 0;
  control_sequence = read_u64 source 8;
  priority_class = read_u16 source 16;
  priority_delta = read_u16 source 18;
  deadline_unix_ms = read_u64 source 20;
  flags = read_u32 source 28;
}

pub parse : List ℕ → Result SchedulingMetadata
parse source = do
  require_len source metadata_len
  validate_mask 32 (read_u32 source 28) flags_known_mask
  ok (read_fields source)

-- The writes of `write`, in order.
field_writes : SchedulingMetadata → List Write
field_writes m =
    write_u64 0 m.operation_id
    ∷ write_u64 8 m.control_sequence
    ∷ write_u16 16 m.priority_class
    ∷ write_u16 18 m.priority_delta
    ∷ write_u64 20 m.deadline_unix_ms
    ∷ write_u32 28 m.flags
    ∷ []

copy_fields : SchedulingMetadata → List ℕ → List ℕ
unfolding field_writes
copy_fields m destination = writes (field_writes m) destination

-- The buffer after the call, where it succeeds.
pub write : SchedulingMetadata → List ℕ → Result (List ℕ)
write m destination = do
  require_destination_len destination metadata_len
  validate_mask 32 m.flags flags_known_mask
  ok (copy_fields m destination)

pub to_bytes : SchedulingMetadata → Result (List ℕ)
unfolding write copy_fields
to_bytes m = write m (replicate metadata_len 0)
