-- ===== src/Enums/OperationCode.antt =====
-- crates/nnrp-core/src/enums.rs: OperationState, its codes on the wire.
use nnrp_rs.Base.{ℕ, ◌≡◌, ◌<◌, refl, List, [], ◌∷◌, arith}
use nnrp_rs.Error.{Result, ok, unknown_enum_value}
use nnrp_rs.Enums.Arms.{match_arms, match_arms-code}
use nnrp_rs.OperationState.{
  OperationState, accepted, running, partial, waiting_tool, superseded, cancelled, failed,
  completed,
}

-- The discriminants of `repr(u8)`.
unfoldable pub as_u8 : OperationState → ℕ
as_u8 accepted = 0
as_u8 running = 1
as_u8 partial = 2
as_u8 waiting_tool = 3
as_u8 superseded = 4
as_u8 cancelled = 5
as_u8 failed = 6
as_u8 completed = 7

abbrev arms : List (ℕ × OperationState)
arms =
    (0, accepted)
    ∷ (1, running)
    ∷ (2, partial)
    ∷ (3, waiting_tool)
    ∷ (4, superseded)
    ∷ (5, cancelled)
    ∷ (6, failed)
    ∷ (7, completed)
    ∷ []

unfoldable pub try_from_u8 : ℕ → Result OperationState
try_from_u8 value = match_arms arms (unknown_enum_value "operation_state" value) value

pub try_from_u8-as_u8 : (t : OperationState) → try_from_u8 (as_u8 t) ≡ ok t
unfolding try_from_u8 as_u8
try_from_u8-as_u8 accepted = refl
try_from_u8-as_u8 _ = refl

pub as_u8-try_from_u8 :
    (value : ℕ) {t : OperationState} → try_from_u8 value ≡ ok t → as_u8 t ≡ value
unfolding try_from_u8 as_u8
as_u8-try_from_u8 value h =
    match_arms-code as_u8 arms (unknown_enum_value "operation_state" value) value (omega arith) h

pub as_u8-lt : (t : OperationState) → as_u8 t < 256
unfolding as_u8
as_u8-lt accepted = omega arith
as_u8-lt _ = omega arith
