-- ===== src/Runtime/Pressure.antt =====
-- crates/nnrp-runtime/src/pressure.rs: RuntimePressureState, what a session knows of the pressure on
-- either side. A method that takes `&mut self` returns the new state and its result.
mod Tests
use nnrp_rs.Base.{ℕ, ◌≡◌, ◌≢◌, ◌⊎◌, inl, inr, refl, arith}
use nnrp_rs.Error.{NnrpError, Result, ok, err, invalid_protocol_combination}
use nnrp_rs.Enums.MessageType.{MessageType}
use nnrp_rs.Control.Pressure.{PressureMetadata}

pub record RuntimePressureState : Type 0 where
  pub outbound_credit_window : ℕ
  pub inbound_credit_window : ℕ
  pub remote_backpressure_level : ℕ
  pub remote_backpressure_reason : ℕ
  pub remote_retry_after_ms : ℕ
  pub remote_pressure_flags : ℕ
  pub local_backpressure_level : ℕ
  pub local_backpressure_reason : ℕ
  pub local_retry_after_ms : ℕ
  pub local_pressure_flags : ℕ

pub default : RuntimePressureState
default = record {
  outbound_credit_window = 0;
  inbound_credit_window = 0;
  remote_backpressure_level = 0;
  remote_backpressure_reason = 0;
  remote_retry_after_ms = 0;
  remote_pressure_flags = 0;
  local_backpressure_level = 0;
  local_backpressure_reason = 0;
  local_retry_after_ms = 0;
  local_pressure_flags = 0;
}

-- What a method returns: the state after the call, and the result.
abbrev pub Call : Type 0
Call = RuntimePressureState × Result (Unit {0})

pub apply_inbound : RuntimePressureState → MessageType → PressureMetadata → Call
apply_inbound s MessageType.credit_update m =
    (record s { outbound_credit_window = m.credit_window }, ok tt)
apply_inbound s MessageType.backpressure m = (
  record s {
    outbound_credit_window = m.credit_window;
    remote_backpressure_level = m.pressure_level;
    remote_backpressure_reason = m.pressure_reason;
    remote_retry_after_ms = m.retry_after_ms;
    remote_pressure_flags = m.flags;
  },
  ok tt,
)
apply_inbound s _ m = (
  s,
  err (
      invalid_protocol_combination
        "pressure state inbound update requires BACKPRESSURE or CREDIT_UPDATE"),
)

pub apply_outbound : RuntimePressureState → MessageType → PressureMetadata → Call
apply_outbound s MessageType.credit_update m =
    (record s { inbound_credit_window = m.credit_window }, ok tt)
apply_outbound s MessageType.backpressure m = (
  record s {
    inbound_credit_window = m.credit_window;
    local_backpressure_level = m.pressure_level;
    local_backpressure_reason = m.pressure_reason;
    local_retry_after_ms = m.retry_after_ms;
    local_pressure_flags = m.flags;
  },
  ok tt,
)
apply_outbound s _ m = (
  s,
  err (
      invalid_protocol_combination
        "pressure state outbound update requires BACKPRESSURE or CREDIT_UPDATE"),
)

-- The two directions do not disturb each other: a message received and a message sent leave the same
-- state and have the same results in either order, whatever messages they are.
pub directions_commute :
    (s : RuntimePressureState) (received sent : MessageType) (m n : PressureMetadata)
    → ((apply_outbound (apply_inbound s received m).0 sent n).0
        ≡ (apply_inbound (apply_outbound s sent n).0 received m).0)
      × ((apply_outbound (apply_inbound s received m).0 sent n).1 ≡ (apply_outbound s sent n).1)
      × ((apply_inbound (apply_outbound s sent n).0 received m).1 ≡ (apply_inbound s received m).1)
unfolding apply_inbound apply_outbound
directions_commute s MessageType.credit_update MessageType.credit_update m n = (refl, refl, refl)
directions_commute s MessageType.credit_update MessageType.backpressure m n = (refl, refl, refl)
directions_commute s MessageType.credit_update _ m n = (refl, refl, refl)
directions_commute s MessageType.backpressure MessageType.credit_update m n = (refl, refl, refl)
directions_commute s MessageType.backpressure MessageType.backpressure m n = (refl, refl, refl)
directions_commute s MessageType.backpressure _ m n = (refl, refl, refl)
directions_commute s _ sent m n = ground arith
