-- ===== src/Lifecycle/Tests/Sessions.antt =====
-- Two sessions of one connection, in the states that the tests move them through.
use nnrp_rs.Base.{ℕ, List, [], ◌∷◌}
use nnrp_rs.Enums.InFlightPolicy
use nnrp_rs.Enums.SessionCloseReason
use nnrp_rs.Enums.SessionCloseStatus
use nnrp_rs.Enums.SessionPriorityClass
use nnrp_rs.Enums.SessionStatus
use nnrp_rs.Enums.MessageType.{MessageType}
use nnrp_rs.Header.{CommonHeader}
use nnrp_rs.Session.OpenAck.{SessionOpenAckMetadata}
use nnrp_rs.Session.Close.{SessionCloseMetadata}
use nnrp_rs.Session.CloseAck.{SessionCloseAckMetadata}
use nnrp_rs.Lifecycle.{
  ConnectionLifecycle, ConnectionLifecycleState, SessionLifecycle, SessionLifecycleState,
}
use nnrp_rs.Lifecycle.Steps.{Event, open_ack}

abbrev pub ack_for : ℕ → SessionOpenAckMetadata
ack_for session_id = record {
  session_id = session_id;
  accepted_profile_id = 1;
  accepted_priority_class = SessionPriorityClass.balanced;
  session_status = SessionStatus.opened;
  schema_id = 7;
  schema_version = 3;
  granted_operation_credit = 4;
  max_in_flight_operations = 8;
  lease_ttl_ms = 30000;
  resume_window_ms = 60000;
  resume_token_bytes = 0;
  session_extension_bytes = 0;
  server_session_tag = 99;
  route_scope_id = 5;
  session_error_code = 0;
  session_flags_ack = 0;
}

abbrev pub header_for : MessageType → ℕ → CommonHeader
header_for message_type session_id = record {
  version_major = 1;
  wire_format = 0;
  message_type = message_type;
  header_len = 40;
  flags = record { bits = 0 };
  meta_len = 24;
  body_len = 0;
  session_id = session_id;
  frame_id = 0;
  view_id = 0;
  route_id = 0;
  trace_id = 0;
}

abbrev pub close_metadata : SessionCloseMetadata
close_metadata = record {
  close_reason = SessionCloseReason.normal;
  in_flight_policy = InFlightPolicy.drain;
  drain_timeout_ms = 500;
  last_operation_id = 7;
  session_error_code = 0;
  session_close_tag = 1;
}

abbrev pub rejection : SessionCloseAckMetadata
rejection = record {
  close_status = SessionCloseStatus.rejected;
  last_operation_id = 7;
  session_error_code = 2;
}

abbrev pub session_for : ℕ → SessionLifecycleState → ℕ → ℕ → SessionLifecycle
session_for session_id state last_operation_id session_error_code = record {
  session_id = session_id;
  state = state;
  profile_id = 1;
  priority_class = SessionPriorityClass.balanced;
  schema_id = 7;
  schema_version = 3;
  max_in_flight_operations = 8;
  route_scope_id = 5;
  last_operation_id = last_operation_id;
  session_error_code = session_error_code;
}

abbrev pub two_sessions :
    ConnectionLifecycleState → SessionLifecycle → SessionLifecycle → ConnectionLifecycle
two_sessions state first second = record {
  state = state;
  sessions = (42, first) ∷ (43, second) ∷ [];
  established_session_states =
      (42, SessionLifecycleState.open_) ∷ (43, SessionLifecycleState.open_) ∷ [];
}

abbrev pub opened : ConnectionLifecycle
opened =
    two_sessions ConnectionLifecycleState.open_ (session_for 42 SessionLifecycleState.open_ 0 0)
      (session_for 43 SessionLifecycleState.open_ 0 0)

abbrev pub closing : ConnectionLifecycle
closing =
    two_sessions ConnectionLifecycleState.open_ (session_for 42 SessionLifecycleState.closing 7 0)
      (session_for 43 SessionLifecycleState.open_ 0 0)

abbrev pub reopened : ConnectionLifecycle
reopened =
    two_sessions ConnectionLifecycleState.open_ (session_for 42 SessionLifecycleState.open_ 7 2)
      (session_for 43 SessionLifecycleState.open_ 0 0)

abbrev pub ended : ConnectionLifecycle
ended =
    two_sessions ConnectionLifecycleState.closed (session_for 42 SessionLifecycleState.closed 7 0)
      (session_for 43 SessionLifecycleState.closed 0 0)

abbrev pub opening_events : List Event
opening_events = open_ack (ack_for 43) ∷ open_ack (ack_for 42) ∷ []
