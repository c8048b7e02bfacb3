-- ===== src/Recovery/Rules.antt =====
-- What the rules on recovery promise.
use nnrp_rs.Base.{ℕ, ◌≤◌, ◌≡◌, ◌≢◌, ◌↔◌, refl, ap, true, arith}
use nnrp_rs.Error.{ok}
use nnrp_rs.Enums.SessionStatus.{SessionStatus}
use nnrp_rs.Enums.TransportId
use nnrp_rs.Session.Open.{SessionOpenMetadata}
use nnrp_rs.Session.OpenAck.{SessionOpenAckMetadata}
use nnrp_rs.Recovery.{
  SessionMigrateMetadata, SessionMigrateAckMetadata, resumed, is_resume_enabled, outcome_of,
  validate_session_recovery_ack, validate_migration_recovery, should_replay_frame_after_migration,
}

-- The server resumes the session: the client asked for it with a token, and the answer carries no error
-- and grants a window and a token for the next time.
pub record Resumes (request : SessionOpenMetadata) (ack : SessionOpenAckMetadata) : Type 0 where
  pub status : ack.session_status ≡ SessionStatus.resumed
  pub asked : request.resume_token_bytes ≢ 0
  pub no_error : ack.session_error_code ≡ 0
  pub enabled : is_resume_enabled ack ≡ true
  pub window : ack.resume_window_ms ≢ 0
  pub token : ack.resume_token_bytes ≢ 0

outcome_of-resumed :
    (status : SessionStatus) (request : SessionOpenMetadata) (ack : SessionOpenAckMetadata) (w : ℕ)
    → outcome_of status request ack ≡ ok (resumed w)
    → (status ≡ SessionStatus.resumed)
      × (request.resume_token_bytes ≢ 0)
      × (ack.session_error_code ≡ 0)
      × (is_resume_enabled ack ≡ true)
      × (w ≡ ack.resume_window_ms)
unfolding outcome_of
outcome_of-resumed SessionStatus.opened request ack w e = absurd (ground arith)
outcome_of-resumed SessionStatus.resumed request ack w e =
    (refl, ground arith, ground arith, ground arith, ground arith)
outcome_of-resumed SessionStatus.rejected request ack w e = absurd (ground arith)
outcome_of-resumed SessionStatus.retry_later request ack w e = absurd (cc)

-- An answer to SESSION_OPEN is taken for a resumption with a window exactly when it is one, and the
-- window is the one that it states.
pub recovery_resumed_iff :
    (request : SessionOpenMetadata) (ack : SessionOpenAckMetadata) (w : ℕ)
    → (validate_session_recovery_ack request ack ≡ ok (resumed w))
      ↔ (Resumes request ack × (w ≡ ack.resume_window_ms))
unfolding validate_session_recovery_ack outcome_of
recovery_resumed_iff request ack w = (
  λ e.
      let o : outcome_of ack.session_status request ack ≡ ok (resumed w) = ground arith in
      let (status, asked, no_error, enabled, same) =
        outcome_of-resumed ack.session_status request ack w o in
      (
        record {
          status = status;
          asked = asked;
          no_error = no_error;
          enabled = enabled;
          window = ground arith;
          token = ground arith;
        },
        same,
      ),
  λ (r, same).
      let status = r.status in
      let asked = r.asked in
      let no_error = r.no_error in
      let enabled = r.enabled in let window = r.window in let token = r.token in ground arith,
)

-- After a migration that was accepted the session is on another transport, and no frame is sent again
-- that comes before the last one whose result the client has seen.
pub migration_replays_nothing_old :
    (request : SessionMigrateMetadata) (ack : SessionMigrateAckMetadata) (frame : ℕ)
    → validate_migration_recovery request ack ≡ ok tt
    → should_replay_frame_after_migration ack frame ≡ true
    → (request.old_transport_id ≢ request.new_transport_id) × (request.last_result_frame_id ≤ frame)
unfolding validate_migration_recovery should_replay_frame_after_migration
migration_replays_nothing_old request ack frame accepted replayed =
    (λ same. absurd (let codes = ap TransportId.as_u32 same in ground arith), ground arith)
