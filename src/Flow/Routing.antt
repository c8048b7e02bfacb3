-- ===== src/Flow/Routing.antt =====
-- crates/nnrp-core/src/flow.rs: which FLOW_UPDATE a header may carry.
use nnrp_rs.Base.{◌≡◌, ◌≢◌, ◌↔◌, ◌⊎◌, arith, bit_and}
use nnrp_rs.Error.{ok}
use nnrp_rs.Enums.MessageType.{flow_update}
use nnrp_rs.Enums.FlowScopeKind.{FlowScopeKind}
use nnrp_rs.Header.{CommonHeader}
use nnrp_rs.Flow.{FlowUpdateMetadata, retry_after_valid, validate_scope, validate_routing}

-- What the scope asks of the header's session and of the fields of the other scopes.
abbrev pub FitsScope : FlowUpdateMetadata → CommonHeader → FlowScopeKind → Type 0
FitsScope m header FlowScopeKind.connection =
    (header.session_id ≡ 0)
    × (m.session_credit ≡ 0)
    × (m.operation_credit ≡ 0)
    × (m.operation_id ≡ 0)
FitsScope m header FlowScopeKind.session =
    (header.session_id ≢ 0)
    × (m.connection_credit ≡ 0)
    × (m.operation_credit ≡ 0)
    × (m.operation_id ≡ 0)
FitsScope m header FlowScopeKind.operation = (header.session_id ≢ 0) × (m.operation_id ≢ 0)

validate_scope_iff :
    (m : FlowUpdateMetadata) (header : CommonHeader) (scope : FlowScopeKind)
    → (validate_scope m header scope ≡ ok tt) ↔ FitsScope m header scope
unfolding validate_scope
validate_scope_iff m header FlowScopeKind.connection = (λ e. ground arith, λ e. ground arith)
validate_scope_iff m header FlowScopeKind.session = (λ e. ground arith, λ e. ground arith)
validate_scope_iff m header FlowScopeKind.operation = (λ e. ground arith, λ e. ground arith)

-- A retry delay is only given with the flag that announces it.
abbrev pub RetryAnnounced : FlowUpdateMetadata → Type 0
RetryAnnounced m = (m.retry_after_ms ≡ 0) ⊎ (bit_and m.flow_flags retry_after_valid ≢ 0)

-- FLOW_UPDATE metadata is accepted under a header exactly when the header announces a FLOW_UPDATE,
-- the session and credit fields fit the scope, and a retry delay is announced by its flag.
pub validate_routing_iff :
    (m : FlowUpdateMetadata) (header : CommonHeader)
    → (validate_routing m header ≡ ok tt)
      ↔ ((header.message_type ≡ flow_update) × FitsScope m header m.scope_kind × RetryAnnounced m)
unfolding validate_routing
validate_routing_iff m header = (
  λ e. (ground arith, (validate_scope_iff m header m.scope_kind).0 (ground arith), ground arith),
  λ (kind, fits, retry).
      let scope = (validate_scope_iff m header m.scope_kind).1 fits in ground arith,
)
