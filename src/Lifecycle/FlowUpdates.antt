-- ===== src/Lifecycle/FlowUpdates.antt =====
-- Which FLOW_UPDATE a connection accepts.
use nnrp_rs.Base.{ℕ, ◌≡◌, ◌≢◌, refl, ◌↔◌, some, arith}
use nnrp_rs.Error.{ok}
use nnrp_rs.Enums.FlowScopeKind.{FlowScopeKind}
use nnrp_rs.Enums.MessageType.{flow_update}
use nnrp_rs.Header.{CommonHeader}
use nnrp_rs.Flow.{FlowUpdateMetadata, validate_routing}
use nnrp_rs.Flow.Routing.{FitsScope, RetryAnnounced, validate_routing_iff}
use nnrp_rs.Lifecycle.{
  ConnectionLifecycle, ConnectionLifecycleState, SessionLifecycle, SessionLifecycleState, session,
  validate_session, validate_flow_update, accepts_session_scoped_messages,
}

-- The session that the scope needs is there and not closed.
abbrev pub HasSession : ConnectionLifecycle → ℕ → FlowScopeKind → Type 0
HasSession c id FlowScopeKind.connection = Unit
HasSession c id _ =
    (s : SessionLifecycle) × (session c id ≡ some s) × (s.state ≢ SessionLifecycleState.closed)

live_session :
    (c : ConnectionLifecycle) (header : CommonHeader) (scope : FlowScopeKind)
    → (validate_session c header scope ≡ ok tt) ↔ HasSession c header.session_id scope
unfolding validate_session accepts_session_scoped_messages
live_session c header FlowScopeKind.connection = (λ e. tt, λ e. refl)
live_session c header FlowScopeKind.session = (λ e. ground arith, λ e. ground arith)
live_session c header FlowScopeKind.operation = (λ e. ground arith, λ e. ground arith)

-- A connection accepts a FLOW_UPDATE exactly when it is open, the header announces a FLOW_UPDATE, the
-- metadata fits its scope and announces a retry delay, and, unless the scope is the connection, the
-- session named by the header is known and not closed.
pub validate_flow_update_iff :
    (c : ConnectionLifecycle) (header : CommonHeader) (m : FlowUpdateMetadata)
    → (validate_flow_update c header m ≡ ok tt) ↔ (
        (c.state ≡ ConnectionLifecycleState.open_)
        × (header.message_type ≡ flow_update)
        × FitsScope m header m.scope_kind
        × RetryAnnounced m
        × HasSession c header.session_id m.scope_kind)
unfolding validate_flow_update
validate_flow_update_iff c header m = (
  λ e.
      let routed : validate_routing m header ≡ ok tt = ground arith in
      let live : validate_session c header m.scope_kind ≡ ok tt = ground arith in
      let (kind, fits, retry) = (validate_routing_iff m header).0 routed in
      (ground arith, kind, fits, retry, (live_session c header m.scope_kind).0 live),
  λ (o, kind, fits, retry, has).
      let routed = (validate_routing_iff m header).1 (kind, fits, retry) in
      let live = (live_session c header m.scope_kind).1 has in ground arith,
)
