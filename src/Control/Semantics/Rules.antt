-- ===== src/Control/Semantics/Rules.antt =====
-- What the rules on control metadata accept.
use nnrp_rs.Base.{ℕ, ◌≡◌, ◌≢◌, ◌≤◌, ◌⊎◌, ◌↔◌, inl, inr, refl, arith, bit_and}
use nnrp_rs.Error.{ok}
use nnrp_rs.Enums.MessageType.{MessageType}
use nnrp_rs.Control.Request.{ControlRequestMetadata}
use nnrp_rs.Control.PartialResult.{PartialResultMetadata}
use nnrp_rs.Control.DropReason.{ResultDropReasonMetadata}
use nnrp_rs.Control.Semantics.{
  validate_standard_role, requires_control_request, validate_control_request_semantics,
  validate_partial_result_semantics, validate_result_drop_reason_semantics,
}

-- A role of the standard, or one left to applications.
abbrev pub IsRole : ℕ → Type 0
IsRole role = (role ≤ 7) ⊎ (128 ≤ role)

validate_standard_role_iff : (role : ℕ) → (validate_standard_role role ≡ ok tt) ↔ IsRole role
unfolding validate_standard_role
validate_standard_role_iff role = (λ e. ground arith, λ e. ground arith)

requires_control_request_iff :
    (kind : MessageType)
    → (requires_control_request kind ≡ ok tt)
      ↔ ((kind ≡ MessageType.cancel) ⊎ (kind ≡ MessageType.abort))
unfolding requires_control_request
requires_control_request_iff MessageType.cancel = (λ e. inl refl, λ e. refl)
requires_control_request_iff MessageType.abort = (λ e. inr refl, λ e. refl)
requires_control_request_iff _ = (λ e. absurd (ground arith), λ e. absurd (ground arith))

-- A control request is accepted exactly under CANCEL or ABORT and with a known role.
pub validate_control_request_semantics_iff :
    (kind : MessageType) (m : ControlRequestMetadata)
    → (validate_control_request_semantics kind m ≡ ok tt)
      ↔ (((kind ≡ MessageType.cancel) ⊎ (kind ≡ MessageType.abort)) × IsRole m.source_role)
unfolding validate_control_request_semantics
validate_control_request_semantics_iff kind m = (
  λ e. (
    (requires_control_request_iff kind).0 (ground arith),
    (validate_standard_role_iff m.source_role).0 (ground arith),
  ),
  λ (named, role).
      let a = (requires_control_request_iff kind).1 named in
      let b = (validate_standard_role_iff m.source_role).1 role in ground arith,
)

-- A partial result is accepted exactly when it names its operation and has something to deliver: it
-- names an object, or it has a body and does not claim to refer to an object.
pub validate_partial_result_semantics_iff :
    (m : PartialResultMetadata)
    → (validate_partial_result_semantics m ≡ ok tt) ↔ (
        (m.operation_id ≢ 0) × ((m.object_id ≢ 0) ⊎ ((m.body_bytes ≢ 0) × (bit_and m.flags 2 ≡ 0))))
unfolding validate_partial_result_semantics
validate_partial_result_semantics_iff m = (λ e. ground arith, λ e. ground arith)

-- A reason for a dropped result is accepted exactly when it names its operation, a reason and a known
-- role.
pub validate_result_drop_reason_semantics_iff :
    (m : ResultDropReasonMetadata)
    → (validate_result_drop_reason_semantics m ≡ ok tt)
      ↔ ((m.operation_id ≢ 0) × (m.drop_reason_code ≢ 0) × IsRole m.source_role)
unfolding validate_result_drop_reason_semantics
validate_result_drop_reason_semantics_iff m = (
  λ e. (ground arith, ground arith, (validate_standard_role_iff m.source_role).0 (ground arith)),
  λ (a, b, role). let c = (validate_standard_role_iff m.source_role).1 role in ground arith,
)
