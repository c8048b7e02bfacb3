-- ===== src/Enums/ResultTerminalState.antt =====
-- crates/nnrp-core/src/enums.rs: ResultTerminalState and its codes on the wire.
use nnrp_rs.Base.{
  ℕ, ◌≡◌, ◌≢◌, ◌<◌, ◌⊎◌, ◌↔◌, refl, List, [], ◌∷◌, Option, none, some, String, true, false, arith,
}
use nnrp_rs.OperationState.{OperationState, is_terminal}
use nnrp_rs.Error.{Result, ok, unknown_enum_value}
use nnrp_rs.Enums.Arms.{match_arms, match_arms-code}

pub data ResultTerminalState : Type 0 where
  success cancelled dropped error : ResultTerminalState

-- The discriminants of `repr(u8)`.
unfoldable pub as_u8 : ResultTerminalState → ℕ
as_u8 success = 0
as_u8 cancelled = 1
as_u8 dropped = 2
as_u8 error = 3

abbrev arms : List (ℕ × ResultTerminalState)
arms = (0, success) ∷ (1, cancelled) ∷ (2, dropped) ∷ (3, error) ∷ []

unfoldable pub try_from_u8 : ℕ → Result ResultTerminalState
try_from_u8 value = match_arms arms (unknown_enum_value "result_terminal_state" value) value

pub try_from_u8-as_u8 : (t : ResultTerminalState) → try_from_u8 (as_u8 t) ≡ ok t
unfolding try_from_u8 as_u8
try_from_u8-as_u8 success = refl
try_from_u8-as_u8 _ = refl

pub as_u8-try_from_u8 :
    (value : ℕ) {t : ResultTerminalState} → try_from_u8 value ≡ ok t → as_u8 t ≡ value
unfolding try_from_u8 as_u8
as_u8-try_from_u8 value h =
    match_arms-code as_u8 arms (unknown_enum_value "result_terminal_state" value) value
      (omega arith) h

pub as_u8-lt : (t : ResultTerminalState) → as_u8 t < 256
unfolding as_u8
as_u8-lt success = omega arith
as_u8-lt _ = omega arith

-- How an operation that has ended is reported.
unfoldable pub from_operation_state : OperationState → Option ResultTerminalState
from_operation_state OperationState.completed = some success
from_operation_state OperationState.cancelled = some cancelled
from_operation_state OperationState.superseded = some dropped
from_operation_state OperationState.failed = some error
from_operation_state _ = none

pub wire_name : ResultTerminalState → String
wire_name success = "success"
wire_name cancelled = "cancelled"
wire_name dropped = "dropped"
wire_name error = "error"

-- Exactly the states that `is_terminal` names have a result, and it tells them apart.
pub from_operation_state_lem :
    (s t : OperationState)
    → ((is_terminal s ≡ true) ↔ (from_operation_state s ≢ none))
      × ((s ≡ t) ⊎ ((from_operation_state s ≢ from_operation_state t) ⊎ (is_terminal s ≡ false)))
unfolding from_operation_state is_terminal
from_operation_state_lem s t = ((λ e. ground arith, λ e. ground arith), ground arith)
