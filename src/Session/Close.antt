-- ===== src/Session/Close.antt =====
-- crates/nnrp-core/src/session.rs: the metadata of SESSION_CLOSE.
pub mod RoundTrip
mod Tests
use nnrp_rs.Base.{ℕ, List, [], ◌∷◌, replicate}
use nnrp_rs.Error.{Result, ok, ◌>>=◌, ◌>>◌}
use nnrp_rs.Enums.InFlightPolicy
use nnrp_rs.Enums.InFlightPolicy.{InFlightPolicy}
use nnrp_rs.Enums.SessionCloseReason
use nnrp_rs.Enums.SessionCloseReason.{SessionCloseReason}
use nnrp_rs.Wire.{
  Write, writes, write_u8, write_u16, write_u32, write_u64, read_u16, read_u32, read_u64,
  require_len, require_destination_len, validate_zero,
}
use nnrp_rs.Wire.Buffer.{byte_at}

abbrev pub metadata_len : ℕ
metadata_len = 24

pub record SessionCloseMetadata : Type 0 where
  pub close_reason : SessionCloseReason
  pub in_flight_policy : InFlightPolicy
  pub drain_timeout_ms : ℕ
  pub last_operation_id : ℕ
  pub session_error_code : ℕ
  pub session_close_tag : ℕ

-- The literal that `parse` ends with.
pub read_fields : List ℕ → SessionCloseReason → InFlightPolicy → SessionCloseMetadata
read_fields source close_reason in_flight_policy = record {
  close_reason = close_reason;
  in_flight_policy = in_flight_policy;
  drain_timeout_ms = read_u32 source 4;
  last_operation_id = read_u64 source 8;
  session_error_code = read_u32 source 16;
  session_close_tag = read_u32 source 20;
}

pub parse : List ℕ → Result SessionCloseMetadata
parse source = do
  require_len source metadata_len
  validate_zero "session_close.reserved0" (byte_at source 3)
  close_reason ← SessionCloseReason.try_from_u16 (read_u16 source 0)
  in_flight_policy ← InFlightPolicy.try_from_u8 (byte_at source 2)
  ok (read_fields source close_reason in_flight_policy)

-- The writes of `write`, in order.
field_writes : SessionCloseMetadata → List Write
field_writes m =
    (0, replicate metadata_len 0)
    ∷ write_u16 0 (SessionCloseReason.as_u16 m.close_reason)
    ∷ write_u8 2 (InFlightPolicy.as_u8 m.in_flight_policy)
    ∷ write_u32 4 m.drain_timeout_ms
    ∷ write_u64 8 m.last_operation_id
    ∷ write_u32 16 m.session_error_code
    ∷ write_u32 20 m.session_close_tag
    ∷ []

copy_fields : SessionCloseMetadata → List ℕ → List ℕ
unfolding field_writes
copy_fields m destination = writes (field_writes m) destination

-- The buffer after the call, where it succeeds.
pub write : SessionCloseMetadata → List ℕ → Result (List ℕ)
write m destination = do
  require_destination_len destination metadata_len
  ok (copy_fields m destination)

pub to_bytes : SessionCloseMetadata → Result (List ℕ)
unfolding write copy_fields
to_bytes m = write m (replicate metadata_len 0)
