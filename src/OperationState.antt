-- ===== src/OperationState.antt =====
-- crates/nnrp-core/src/enums.rs: OperationState, the states of one operation and the moves between
-- them.
use nnrp_rs.Base.{Bool, true, false, if◌then◌else◌}

pub data OperationState : Type 0 where
  accepted running partial waiting_tool superseded cancelled failed completed : OperationState

unfoldable pub is_terminal : OperationState → Bool
is_terminal superseded = true
is_terminal cancelled = true
is_terminal failed = true
is_terminal completed = true
is_terminal _ = false

-- The pairs of the `matches!` in the source, row by row.
can_move : OperationState → OperationState → Bool
can_move accepted running = true
can_move accepted cancelled = true
can_move accepted failed = true
can_move accepted superseded = true
can_move running partial = true
can_move running waiting_tool = true
can_move running cancelled = true
can_move running failed = true
can_move running completed = true
can_move running superseded = true
can_move partial partial = true
can_move partial waiting_tool = true
can_move partial cancelled = true
can_move partial failed = true
can_move partial completed = true
can_move partial superseded = true
can_move waiting_tool running = true
can_move waiting_tool cancelled = true
can_move waiting_tool failed = true
can_move waiting_tool superseded = true
can_move _ _ = false

unfoldable pub can_transition_to : OperationState → OperationState → Bool
unfolding is_terminal can_move
can_transition_to s next = if is_terminal s then false else can_move s next
