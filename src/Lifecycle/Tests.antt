-- ===== src/Lifecycle/Tests.antt =====
-- Two sessions on one connection, and the theorems on the lifecycle at them.
pub mod Sessions
use nnrp_rs.Base.{◌≡◌, ◌↔◌, refl, [], ◌∷◌, none, some, true, arith, subst}
use nnrp_rs.Base.Dict.{get}
use nnrp_rs.Error.{ok, err, unknown_session}
use nnrp_rs.Enums.FlowScopeKind
use nnrp_rs.Enums.FlowUpdateReason
use nnrp_rs.Enums.BackpressureLevel
use nnrp_rs.Enums.InFlightPolicy
use nnrp_rs.Enums.SessionCloseReason
use nnrp_rs.Enums.SessionCloseStatus
use nnrp_rs.Enums.SessionPriorityClass
use nnrp_rs.Enums.SessionStatus
use nnrp_rs.Enums.MessageType.{MessageType}
use nnrp_rs.Flow.{FlowUpdateMetadata}
use nnrp_rs.Flow.Routing.{FitsScope, RetryAnnounced}
use nnrp_rs.Lifecycle.{
  ConnectionLifecycleState, SessionLifecycle, SessionLifecycleState, new, session,
  begin_session_close, apply_session_close_ack, close_connection, validate_flow_update,
  accepts_new_operations,
}
use nnrp_rs.Lifecycle.Steps.{open_ack, begin_close, close_ack, close, step, run}
use nnrp_rs.Lifecycle.Invariant.{Inv, run-new-Inv}
use nnrp_rs.Lifecycle.Sessions.{step_isolates, Keeps, run-Keeps}
use nnrp_rs.Lifecycle.Closing.{close_then_rejected, close_connection_final}
use nnrp_rs.Lifecycle.FlowUpdates.{HasSession, validate_flow_update_iff}
use Sessions.{
  ack_for, header_for, close_metadata, rejection, session_for, opened, closing, reopened, ended,
  opening_events,
}

-- The sessions stand in the order of their identifiers; the second answer for one is refused.
opens :
    run new (open_ack (ack_for 43) ∷ open_ack (ack_for 42) ∷ open_ack (ack_for 43) ∷ []) ≡ opened
unfolding run new step nnrp_rs.Lifecycle.apply_session_open_ack
    nnrp_rs.Lifecycle.require_connection_open nnrp_rs.Lifecycle.install
    nnrp_rs.Base.Dict.contains_key nnrp_rs.Base.Dict.insert nnrp_rs.Lifecycle.installed
opens = refl

opened_by_events : run new opening_events ≡ opened
unfolding run new step nnrp_rs.Lifecycle.apply_session_open_ack
    nnrp_rs.Lifecycle.require_connection_open nnrp_rs.Lifecycle.install
    nnrp_rs.Base.Dict.contains_key nnrp_rs.Base.Dict.insert nnrp_rs.Lifecycle.installed
opened_by_events = refl

closes :
    step opened (begin_close (header_for MessageType.session_close 42) close_metadata) ≡ ok closing
unfolding step begin_session_close get accepts_new_operations nnrp_rs.Base.Dict.set
    nnrp_rs.Lifecycle.closing_record
closes = refl

rejects :
    step closing (close_ack (header_for MessageType.session_close_ack 42) rejection) ≡ ok reopened
unfolding step apply_session_close_ack get nnrp_rs.Lifecycle.accepts_session_scoped_messages
    nnrp_rs.Lifecycle.state_after nnrp_rs.Base.Dict.set nnrp_rs.Lifecycle.acked_record
rejects = refl

ends : close_connection closing ≡ ok ended
unfolding close_connection nnrp_rs.Base.Dict.map_values nnrp_rs.Lifecycle.closed_record
ends = refl

opened-Inv : Inv opened
opened-Inv = subst Inv opened_by_events (run-new-Inv opening_events)

run-new-Inv_example : Inv (run new (open_ack (ack_for 42) ∷ close ∷ open_ack (ack_for 43) ∷ []))
run-new-Inv_example = run-new-Inv (open_ack (ack_for 42) ∷ close ∷ open_ack (ack_for 43) ∷ [])

step_isolates_example : session closing 43 ≡ session opened 43
step_isolates_example =
    step_isolates opened closing
      (begin_close (header_for MessageType.session_close 42) close_metadata) 43 closes
      (λ e. omega arith)

found_42 : session opened 42 ≡ some (session_for 42 SessionLifecycleState.open_ 0 0)
unfolding get
found_42 = refl

run-Keeps_example :
    (s' : SessionLifecycle) × Keeps opened
      (run opened (close_ack (header_for MessageType.session_close_ack 42) rejection ∷ close ∷ []))
      42
      (session_for 42 SessionLifecycleState.open_ 0 0)
      s'
run-Keeps_example =
    run-Keeps opened
      (close_ack (header_for MessageType.session_close_ack 42) rejection ∷ close ∷ []) 42
      (session_for 42 SessionLifecycleState.open_ 0 0) found_42

begins_close :
    begin_session_close opened (header_for MessageType.session_close 42) close_metadata ≡ ok closing
unfolding begin_session_close get accepts_new_operations nnrp_rs.Base.Dict.set
    nnrp_rs.Lifecycle.closing_record
begins_close = refl

acks_rejection :
    apply_session_close_ack closing (header_for MessageType.session_close_ack 42) rejection
    ≡ ok reopened
unfolding apply_session_close_ack get nnrp_rs.Lifecycle.accepts_session_scoped_messages
    nnrp_rs.Lifecycle.state_after nnrp_rs.Base.Dict.set nnrp_rs.Lifecycle.acked_record
acks_rejection = refl

close_then_rejected_example :
    (s s'' : SessionLifecycle) × (session opened 42 ≡ some s)
    × (session reopened 42 ≡ some s'')
    × (s''.state ≡ s.state)
    × (accepts_new_operations s''.state ≡ true)
close_then_rejected_example =
    close_then_rejected opened closing reopened (header_for MessageType.session_close 42)
      (header_for MessageType.session_close_ack 42) close_metadata rejection opened-Inv begins_close
      refl refl acks_rejection

ended_42 : session ended 42 ≡ some (session_for 42 SessionLifecycleState.closed 7 0)
unfolding get
ended_42 = refl

close_connection_final_example :
    (run ended (open_ack (ack_for 44) ∷ close ∷ []) ≡ ended)
    × ((session_for 42 SessionLifecycleState.closed 7 0).state ≡ SessionLifecycleState.closed)
close_connection_final_example =
    close_connection_final closing ended (open_ack (ack_for 44) ∷ close ∷ []) 42
      (session_for 42 SessionLifecycleState.closed 7 0) ends ended_42

abbrev session_update : FlowUpdateMetadata
session_update = record {
  scope_kind = FlowScopeKind.session;
  update_reason = FlowUpdateReason.grant;
  backpressure_level = BackpressureLevel.none;
  connection_credit = 0;
  session_credit = 2;
  operation_credit = 0;
  operation_id = 0;
  retry_after_ms = 0;
  credit_epoch = 1;
  flow_flags = 0;
}

validate_flow_update_iff_example :
    (validate_flow_update opened (header_for MessageType.flow_update 42) session_update ≡ ok tt) ↔ (
      (ConnectionLifecycleState.open_ ≡ ConnectionLifecycleState.open_)
      × (MessageType.flow_update ≡ MessageType.flow_update)
      × FitsScope session_update (header_for MessageType.flow_update 42) FlowScopeKind.session
      × RetryAnnounced session_update
      × HasSession opened 42 FlowScopeKind.session)
validate_flow_update_iff_example =
    validate_flow_update_iff opened (header_for MessageType.flow_update 42) session_update

-- An update for a session that the connection does not know.
unknown_session_update :
    validate_flow_update opened (header_for MessageType.flow_update 44) session_update
    ≡ err (unknown_session 44)
unfolding validate_flow_update nnrp_rs.Flow.validate_routing get
unknown_session_update = refl
