-- ===== src/Recovery/Tests.antt =====
-- The rules on recovery on concrete messages.
use nnrp_rs.Base.{◌≤◌, ◌≡◌, ◌≢◌, ◌↔◌, refl, true}
use nnrp_rs.Error.{ok}
use nnrp_rs.Enums.SessionPriorityClass
use nnrp_rs.Enums.SessionStatus
use nnrp_rs.Enums.TransportId
use nnrp_rs.Session.Open.{SessionOpenMetadata}
use nnrp_rs.Session.OpenAck.{SessionOpenAckMetadata}
use nnrp_rs.Recovery.{
  SessionMigrateMetadata, SessionMigrateAckMetadata, resumed, validate_session_recovery_request,
  validate_session_recovery_ack, validate_migration_recovery, should_replay_frame_after_migration,
}
use nnrp_rs.Recovery.Rules.{Resumes, recovery_resumed_iff, migration_replays_nothing_old}

abbrev request : SessionOpenMetadata
request = record {
  requested_session_id = 42;
  profile_id = 0;
  priority_class = SessionPriorityClass.interactive;
  session_flags = 1;
  schema_id = 0;
  schema_version = 0;
  default_deadline_ms = 0;
  max_in_flight_operations = 0;
  lease_ttl_hint_ms = 0;
  resume_token_bytes = 16;
  auth_bytes = 0;
  session_extension_bytes = 0;
  client_session_tag = 0;
}

abbrev ack : SessionOpenAckMetadata
ack = record {
  session_id = 0;
  accepted_profile_id = 0;
  accepted_priority_class = SessionPriorityClass.interactive;
  session_status = SessionStatus.resumed;
  schema_id = 0;
  schema_version = 0;
  granted_operation_credit = 0;
  max_in_flight_operations = 0;
  lease_ttl_ms = 0;
  resume_window_ms = 5000;
  resume_token_bytes = 16;
  session_extension_bytes = 0;
  server_session_tag = 0;
  route_scope_id = 0;
  session_error_code = 0;
  session_flags_ack = 1;
}

abbrev migrate : SessionMigrateMetadata
migrate = record {
  old_transport_id = TransportId.tcp;
  new_transport_id = TransportId.quic;
  last_result_frame_id = 10;
  client_migrate_ts_us = 0;
}

abbrev migrate_ack : SessionMigrateAckMetadata
migrate_ack = record {
  accept_code = 0;
  resume_from_frame_id = 11;
  grace_window_ms = 100;
  server_migrate_ts_us = 0;
}

migration_accepted : validate_migration_recovery migrate migrate_ack ≡ ok tt
unfolding validate_migration_recovery TransportId.as_u32
migration_accepted = refl

frame_replayed : should_replay_frame_after_migration migrate_ack 12 ≡ true
unfolding should_replay_frame_after_migration
frame_replayed = refl

frame_behind_last_result : (migrate.old_transport_id ≢ migrate.new_transport_id) × (10 ≤ 12)
frame_behind_last_result =
    migration_replays_nothing_old migrate migrate_ack 12 migration_accepted frame_replayed

recovery_accepted : validate_session_recovery_ack request ack ≡ ok (resumed 5000)
unfolding validate_session_recovery_ack
recovery_accepted = refl

request_accepted : validate_session_recovery_request request ≡ ok tt
unfolding validate_session_recovery_request
request_accepted = refl

recovery_resumed_iff_example :
    (validate_session_recovery_ack request ack ≡ ok (resumed 5000))
    ↔ (Resumes request ack × (5000 ≡ ack.resume_window_ms))
recovery_resumed_iff_example = recovery_resumed_iff request ack 5000
