-- ===== src/Lifecycle.antt =====
-- crates/nnrp-core/src/lifecycle.rs: the sessions of one connection. An operation returns the new
-- state; none of them assigns a field before its last check, so an error leaves the state as it was.
pub mod Steps
mod Tests
pub mod Invariant
pub mod Sessions
pub mod Closing
pub mod FlowUpdates
use nnrp_rs.Base.{ℕ, Bool, true, false, not, [], Option, none, some, if◌then◌else◌, ◌==◌, length}
use nnrp_rs.Base.Dict
use nnrp_rs.Base.Dict.{Dict}
use nnrp_rs.Error.{
  Result, ok, err, ◌>>=◌, ◌>>◌, reject_if, ok_or, connection_not_open, connection_already_closed,
  session_already_exists, unknown_session, session_not_open, invalid_protocol_combination,
}
use nnrp_rs.Enums.MessageType.{MessageType}
use nnrp_rs.Enums.SessionPriorityClass.{SessionPriorityClass}
use nnrp_rs.Enums.SessionStatus.{SessionStatus}
use nnrp_rs.Enums.SessionCloseStatus.{SessionCloseStatus}
use nnrp_rs.Enums.FlowScopeKind.{FlowScopeKind}
use nnrp_rs.Header.{CommonHeader}
use nnrp_rs.Flow.{FlowUpdateMetadata, validate_routing}
use nnrp_rs.Session.OpenAck.{SessionOpenAckMetadata}
use nnrp_rs.Session.Close.{SessionCloseMetadata}
use nnrp_rs.Session.CloseAck.{SessionCloseAckMetadata}

pub data ConnectionLifecycleState : Type 0 where
  open_ closing closed : ConnectionLifecycleState

pub data SessionLifecycleState : Type 0 where
  open_ resumed closing draining closed : SessionLifecycleState

pub accepts_session_scoped_messages : SessionLifecycleState → Bool
accepts_session_scoped_messages SessionLifecycleState.closed = false
accepts_session_scoped_messages _ = true

pub accepts_new_operations : SessionLifecycleState → Bool
accepts_new_operations SessionLifecycleState.open_ = true
accepts_new_operations SessionLifecycleState.resumed = true
accepts_new_operations _ = false

pub record SessionLifecycle : Type 0 where
  pub session_id : ℕ
  pub state : SessionLifecycleState
  pub profile_id : ℕ
  pub priority_class : SessionPriorityClass
  pub schema_id : ℕ
  pub schema_version : ℕ
  pub max_in_flight_operations : ℕ
  pub route_scope_id : ℕ
  pub last_operation_id : ℕ
  pub session_error_code : ℕ

pub record ConnectionLifecycle : Type 0 where
  pub state : ConnectionLifecycleState
  pub sessions : Dict SessionLifecycle
  pub established_session_states : Dict SessionLifecycleState

pub new : ConnectionLifecycle
new = record {
  state = ConnectionLifecycleState.open_;
  sessions = [];
  established_session_states = [];
}

pub session_count : ConnectionLifecycle → ℕ
session_count c = length c.sessions

abbrev pub session : ConnectionLifecycle → ℕ → Option SessionLifecycle
session c session_id = Dict.get session_id c.sessions

-- The assignment of `close_connection` to each session.
pub closed_record : SessionLifecycle → SessionLifecycle
closed_record s = record s { state = SessionLifecycleState.closed }

-- The `match` of `close_connection` on the state.
close_from : ConnectionLifecycleState → ConnectionLifecycle → Result ConnectionLifecycle
close_from ConnectionLifecycleState.closed c = err connection_already_closed
close_from _ c = ok (record c {
  state = ConnectionLifecycleState.closed;
  sessions = Dict.map_values closed_record c.sessions;
})

pub close_connection : ConnectionLifecycle → Result ConnectionLifecycle
unfolding close_from
close_connection c = close_from c.state c

open_or_fail : ConnectionLifecycleState → Result (Unit {0})
open_or_fail ConnectionLifecycleState.open_ = ok tt
open_or_fail _ = err connection_not_open

pub require_connection_open : ConnectionLifecycle → Result (Unit {0})
unfolding open_or_fail
require_connection_open c = open_or_fail c.state

-- The record that a successful SESSION_OPEN_ACK installs.
pub installed : SessionOpenAckMetadata → SessionLifecycleState → SessionLifecycle
installed ack state = record {
  session_id = ack.session_id;
  state = state;
  profile_id = ack.accepted_profile_id;
  priority_class = ack.accepted_priority_class;
  schema_id = ack.schema_id;
  schema_version = ack.schema_version;
  max_in_flight_operations = ack.max_in_flight_operations;
  route_scope_id = ack.route_scope_id;
  last_operation_id = 0;
  session_error_code = ack.session_error_code;
}

install :
    ConnectionLifecycle
    → SessionOpenAckMetadata
    → SessionLifecycleState
    → Result ConnectionLifecycle
install c ack state = do
  reject_if (ack.session_id == 0)
      (invalid_protocol_combination "successful SESSION_OPEN_ACK requires a non-zero session_id")
  reject_if (Dict.contains_key ack.session_id c.sessions) (session_already_exists ack.session_id)
  ok (record c {
    established_session_states = Dict.insert ack.session_id state c.established_session_states;
    sessions = Dict.insert ack.session_id (installed ack state) c.sessions;
  })

refuse_install : ConnectionLifecycle → SessionOpenAckMetadata → Result ConnectionLifecycle
refuse_install c ack = do
  reject_if (not (ack.session_id == 0))
      (invalid_protocol_combination "rejected SESSION_OPEN_ACK must not install a session_id")
  ok c

-- The `match` of `apply_session_open_ack` on the status.
apply_status :
    SessionStatus → ConnectionLifecycle → SessionOpenAckMetadata → Result ConnectionLifecycle
unfolding refuse_install
apply_status SessionStatus.opened c ack = install c ack SessionLifecycleState.open_
apply_status SessionStatus.resumed c ack = install c ack SessionLifecycleState.resumed
apply_status SessionStatus.rejected c ack = refuse_install c ack
apply_status SessionStatus.retry_later c ack = refuse_install c ack

pub apply_session_open_ack :
    ConnectionLifecycle → SessionOpenAckMetadata → Result ConnectionLifecycle
unfolding apply_status
apply_session_open_ack c ack = do require_connection_open c; apply_status ack.session_status c ack

is_session_close : MessageType → Bool
is_session_close MessageType.session_close = true
is_session_close _ = false

is_session_close_ack : MessageType → Bool
is_session_close_ack MessageType.session_close_ack = true
is_session_close_ack _ = false

-- The three assignments that `begin_session_close` ends with.
pub closing_record : SessionLifecycle → SessionCloseMetadata → SessionLifecycle
closing_record s close = record s {
  state = SessionLifecycleState.closing;
  last_operation_id = close.last_operation_id;
  session_error_code = close.session_error_code;
}

pub begin_session_close :
    ConnectionLifecycle → CommonHeader → SessionCloseMetadata → Result ConnectionLifecycle
unfolding require_connection_open is_session_close
begin_session_close c header close = do
  require_connection_open c
  reject_if (not (is_session_close header.message_type)) (
      invalid_protocol_combination
        "SESSION_CLOSE lifecycle transition requires a SESSION_CLOSE header")
  reject_if (header.session_id == 0)
      (invalid_protocol_combination "SESSION_CLOSE requires header.session_id!=0")
  s ← ok_or (session c header.session_id) (unknown_session header.session_id)
  reject_if (not (accepts_new_operations s.state)) (session_not_open header.session_id)
  ok (record c { sessions = Dict.set header.session_id (closing_record s close) c.sessions })

-- The `match` of `apply_session_close_ack` on the status.
pub state_after : ConnectionLifecycle → ℕ → SessionCloseStatus → Result SessionLifecycleState
state_after c session_id SessionCloseStatus.acknowledged = ok SessionLifecycleState.closing
state_after c session_id SessionCloseStatus.draining = ok SessionLifecycleState.draining
state_after c session_id SessionCloseStatus.closed = ok SessionLifecycleState.closed
state_after c session_id SessionCloseStatus.rejected =
    ok_or (Dict.get session_id c.established_session_states) (unknown_session session_id)

-- The three assignments that `apply_session_close_ack` ends with.
pub acked_record :
    SessionLifecycle → SessionCloseAckMetadata → SessionLifecycleState → SessionLifecycle
acked_record s ack state = record s {
  state = state;
  last_operation_id = ack.last_operation_id;
  session_error_code = ack.session_error_code;
}

pub apply_session_close_ack :
    ConnectionLifecycle → CommonHeader → SessionCloseAckMetadata → Result ConnectionLifecycle
unfolding require_connection_open is_session_close_ack
apply_session_close_ack c header ack = do
  require_connection_open c
  reject_if (not (is_session_close_ack header.message_type)) (
      invalid_protocol_combination
        "SESSION_CLOSE_ACK lifecycle transition requires a SESSION_CLOSE_ACK header")
  reject_if (header.session_id == 0)
      (invalid_protocol_combination "SESSION_CLOSE_ACK requires header.session_id!=0")
  s ← ok_or (session c header.session_id) (unknown_session header.session_id)
  reject_if (not (accepts_session_scoped_messages s.state)) (session_not_open header.session_id)
  state ← state_after c header.session_id ack.close_status
  ok (record c { sessions = Dict.set header.session_id (acked_record s ack state) c.sessions })

-- Option::filter.
abbrev keep_if {ℓ} : {A : Type ℓ} → (A → Bool) → Option A → Option A
keep_if p none = none
keep_if p (some a) = if p a then some a else none

abbrev unit_or_fail {ℓ} : {A : Type ℓ} → Result A → Result (Unit {0})
unit_or_fail (ok a) = ok tt
unit_or_fail (err e) = err e

-- The `match` of `validate_flow_update` on the scope; two of its cases are one arm.
validate_session : ConnectionLifecycle → CommonHeader → FlowScopeKind → Result (Unit {0})
validate_session c header FlowScopeKind.connection = ok tt
validate_session c header _ = unit_or_fail (
    ok_or (keep_if (λ s. accepts_session_scoped_messages s.state) (session c header.session_id))
      (unknown_session header.session_id))

pub validate_flow_update :
    ConnectionLifecycle → CommonHeader → FlowUpdateMetadata → Result (Unit {0})
unfolding require_connection_open validate_session
validate_flow_update c header metadata = do
  require_connection_open c
  validate_routing metadata header
  validate_session c header metadata.scope_kind
