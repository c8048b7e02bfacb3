-- ===== src/Session/CloseAck.antt =====
-- crates/nnrp-core/src/session.rs: the metadata of SESSION_CLOSE_ACK.
pub mod RoundTrip
mod Tests
use nnrp_rs.Base.{ℕ, List, [], ◌∷◌, replicate}
use nnrp_rs.Error.{Result, ok, ◌>>=◌, ◌>>◌}
use nnrp_rs.Enums.SessionCloseStatus
use nnrp_rs.Enums.SessionCloseStatus.{SessionCloseStatus}
use nnrp_rs.Wire.{
  Write, writes, write_u8, write_u32, write_u64, read_u16, read_u32, read_u64, require_len,
  require_destination_len, validate_zero,
}
use nnrp_rs.Wire.Buffer.{byte_at}

abbrev pub metadata_len : ℕ
metadata_len = 16

pub record SessionCloseAckMetadata : Type 0 where
  pub close_status : SessionCloseStatus
  pub last_operation_id : ℕ
  pub session_error_code : ℕ

-- The literal that `parse` ends with.
pub read_fields : List ℕ → SessionCloseStatus → SessionCloseAckMetadata
read_fields source close_status = record {
  close_status = close_status;
  last_operation_id = read_u64 source 4;
  session_error_code = read_u32 source 12;
}

pub parse : List ℕ → Result SessionCloseAckMetadata
parse source = do
  require_len source metadata_len
  validate_zero "session_close_ack.reserved0" (byte_at source 1)
  validate_zero "session_close_ack.reserved1" (read_u16 source 2)
  close_status ← SessionCloseStatus.try_from_u8 (byte_at source 0)
  ok (read_fields source close_status)

-- The writes of `write`, in order.
field_writes : SessionCloseAckMetadata → List Write
field_writes m =
    (0, replicate metadata_len 0)
    ∷ write_u8 0 (SessionCloseStatus.as_u8 m.close_status)
    ∷ write_u64 4 m.last_operation_id
    ∷ write_u32 12 m.session_error_code
    ∷ []

copy_fields : SessionCloseAckMetadata → List ℕ → List ℕ
unfolding field_writes
copy_fields m destination = writes (field_writes m) destination

-- The buffer after the call, where it succeeds.
pub write : SessionCloseAckMetadata → List ℕ → Result (List ℕ)
write m destination = do
  require_destination_len destination metadata_len
  ok (copy_fields m destination)

pub to_bytes : SessionCloseAckMetadata → Result (List ℕ)
unfolding write copy_fields
to_bytes m = write m (replicate metadata_len 0)
