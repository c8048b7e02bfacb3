-- ===== src/Recovery.antt =====
-- crates/nnrp-core/src/recovery.rs: when a session is resumed, and which frames are sent again after it
-- has moved to another transport. The records of SESSION_MIGRATE and its answer are those of
-- crates/nnrp-core/src/control.rs.
pub mod Rules
mod Tests
use nnrp_rs.Base.{ℕ, Bool, ◌&&◌, ◌||◌, Option, bit_and, if◌then◌else◌, ◌==◌, ◌!=◌, ltb, leb, not}
use nnrp_rs.Error.{Result, ok, err, ◌>>=◌, ◌>>◌, reject_if, invalid_protocol_combination}
use nnrp_rs.Enums.SessionStatus.{SessionStatus}
use nnrp_rs.Enums.TransportId
use nnrp_rs.Enums.TransportId.{TransportId}
use nnrp_rs.Session.Open.{SessionOpenMetadata}
use nnrp_rs.Session.OpenAck.{SessionOpenAckMetadata}

pub record SessionMigrateMetadata : Type 0 where
  pub old_transport_id : TransportId
  pub new_transport_id : TransportId
  pub last_result_frame_id : ℕ
  pub client_migrate_ts_us : ℕ

pub record SessionMigrateAckMetadata : Type 0 where
  pub accept_code : ℕ
  pub resume_from_frame_id : ℕ
  pub grace_window_ms : ℕ
  pub server_migrate_ts_us : ℕ

abbrev pub session_flag_allow_resume : ℕ
session_flag_allow_resume = 0x01

abbrev pub session_ack_flag_resume_enabled : ℕ
session_ack_flag_resume_enabled = 0x00000001

abbrev pub session_error_none : ℕ
session_error_none = 0

abbrev pub session_error_resume_rejected : ℕ
session_error_resume_rejected = 0x00010006

pub record SessionRecoveryIntent : Type 0 where
  pub requested_session_id : ℕ
  pub resume_token_bytes : ℕ
  pub resume_from_operation_id : Option ℕ

pub from_session_open : SessionOpenMetadata → Option ℕ → SessionRecoveryIntent
from_session_open metadata resume_from_operation_id = record {
  requested_session_id = metadata.requested_session_id;
  resume_token_bytes = metadata.resume_token_bytes;
  resume_from_operation_id = resume_from_operation_id;
}

pub is_resume_attempt : SessionRecoveryIntent → Bool
is_resume_attempt intent = ltb 0 intent.resume_token_bytes

pub data SessionRecoveryOutcome : Type 0 where
  fresh : SessionRecoveryOutcome
  resume_enabled : (resume_window_ms : ℕ) → SessionRecoveryOutcome
  resumed : (resume_window_ms : ℕ) → SessionRecoveryOutcome
  resume_rejected : SessionRecoveryOutcome

pub validate_session_recovery_request : SessionOpenMetadata → Result (Unit {0})
validate_session_recovery_request metadata =
    if ltb 0 metadata.resume_token_bytes
    then (do
      reject_if (bit_and metadata.session_flags session_flag_allow_resume == 0)
          (invalid_protocol_combination "resume token requires allow_resume session flag")
      reject_if (metadata.requested_session_id == 0)
          (invalid_protocol_combination "resume token must be bound to a requested session id"))
    else ok tt

abbrev pub is_resume_enabled : SessionOpenAckMetadata → Bool
is_resume_enabled ack = bit_and ack.session_flags_ack session_ack_flag_resume_enabled != 0

-- The `match` of `validate_session_recovery_ack`.
outcome_of :
    SessionStatus → SessionOpenMetadata → SessionOpenAckMetadata → Result SessionRecoveryOutcome
outcome_of SessionStatus.opened request ack =
    ok (if is_resume_enabled ack then resume_enabled ack.resume_window_ms else fresh)
outcome_of SessionStatus.resumed request ack = do
  reject_if (request.resume_token_bytes == 0)
      (invalid_protocol_combination "resumed ack requires a resume token in the request")
  reject_if (ack.session_error_code != session_error_none)
      (invalid_protocol_combination "resumed ack must not carry a session error")
  reject_if (not (is_resume_enabled ack))
      (invalid_protocol_combination "resumed ack must keep resume_enabled set")
  ok (resumed ack.resume_window_ms)
outcome_of SessionStatus.rejected request ack =
    ok (if ack.session_error_code == session_error_resume_rejected then resume_rejected else fresh)
outcome_of SessionStatus.retry_later request ack = ok fresh

pub validate_session_recovery_ack :
    SessionOpenMetadata → SessionOpenAckMetadata → Result SessionRecoveryOutcome
unfolding outcome_of
validate_session_recovery_ack request ack = do
  reject_if
      (is_resume_enabled ack && ((ack.resume_window_ms == 0) || (ack.resume_token_bytes == 0)))
      (invalid_protocol_combination
        "resume_enabled ack requires non-zero resume window and token bytes")
  outcome_of ack.session_status request ack

pub validate_migration_recovery :
    SessionMigrateMetadata → SessionMigrateAckMetadata → Result (Unit {0})
validate_migration_recovery request ack = do
  reject_if
      (TransportId.as_u32 request.old_transport_id == TransportId.as_u32 request.new_transport_id)
      (invalid_protocol_combination "session migration must bind a different transport")
  reject_if (ltb ack.resume_from_frame_id request.last_result_frame_id) (
      invalid_protocol_combination
        "migration resume cursor cannot move behind the last result frame")

pub should_replay_frame_after_migration : SessionMigrateAckMetadata → ℕ → Bool
should_replay_frame_after_migration ack frame_id = leb ack.resume_from_frame_id frame_id
