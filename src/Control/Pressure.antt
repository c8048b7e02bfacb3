-- ===== src/Control/Pressure.antt =====
-- crates/nnrp-core/src/control.rs: the metadata of BACKPRESSURE and CREDIT_UPDATE.
pub mod RoundTrip
mod Tests
use nnrp_rs.Base.{ℕ, ◌≡◌, ◌≤◌, List, [], ◌∷◌, ◌++◌, replicate, length}
use nnrp_rs.Error.{Result, ok, err, ◌>>=◌, ◌>>◌, reject_if}
use nnrp_rs.Wire.{
  Write, writes, write_u8, write_u16, write_u32, write_u64, read_u16, read_u32, read_u64,
  require_len, require_destination_len, validate_zero, validate_mask, require_declared_len,
  split_declared_tail,
}
use nnrp_rs.Wire.Buffer.{byte_at}

abbrev pub metadata_len : ℕ
metadata_len = 32

abbrev pub flags_known_mask : ℕ
flags_known_mask = 0x3

pub record PressureMetadata : Type 0 where
  pub scope_id : ℕ
  pub credit_window : ℕ
  pub pressure_level : ℕ
  pub pressure_reason : ℕ
  pub retry_after_ms : ℕ
  pub flags : ℕ

-- The literal that `parse` ends with.
pub read_fields : List ℕ → PressureMetadata
read_fields source = record {
  scope_id = read_u64 source 0;
  credit_window = read_u64 source 8;
  pressure_level = read_u16 source 16;
  pressure_reason = read_u16 source 18;
  retry_after_ms = read_u32 source 20;
  flags = read_u32 source 24;
}

pub parse : List ℕ → Result PressureMetadata
parse source = do
  require_len source metadata_len
  validate_mask 32 (read_u32 source 24) flags_known_mask
  validate_zero "pressure.reserved" (read_u32 source 28)
  ok (read_fields source)

-- The writes of `write`, in order.
field_writes : PressureMetadata → List Write
field_writes m =
    (0, replicate metadata_len 0)
    ∷ write_u64 0 m.scope_id
    ∷ write_u64 8 m.credit_window
    ∷ write_u16 16 m.pressure_level
    ∷ write_u16 18 m.pressure_reason
    ∷ write_u32 20 m.retry_after_ms
    ∷ write_u32 24 m.flags
    ∷ []

copy_fields : PressureMetadata → List ℕ → List ℕ
unfolding field_writes
copy_fields m destination = writes (field_writes m) destination

-- The buffer after the call, where it succeeds.
pub write : PressureMetadata → List ℕ → Result (List ℕ)
write m destination = do
  require_destination_len destination metadata_len
  validate_mask 32 m.flags flags_known_mask
  ok (copy_fields m destination)

pub to_bytes : PressureMetadata → Result (List ℕ)
unfolding write copy_fields
to_bytes m = write m (replicate metadata_len 0)
