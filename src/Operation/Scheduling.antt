-- ===== src/Operation/Scheduling.antt =====
-- crates/nnrp-core/src/operation.rs: deadlines and priorities of operations, and their expiry.
pub mod Evolution
pub mod Updates
pub mod Validated
pub use nnrp_rs.Control.Scheduling.{SchedulingMetadata, scheduling_flag_discard_stale}
use nnrp_rs.Operation.{OperationRecord, OperationSchedule, OperationRegistry, Call, put, operation}
use nnrp_rs.Base.{ℕ, Bool, Option, none, some, if◌then◌else◌, ◌==◌, ◌!=◌, ◌||◌, ltb, bit_and, not}
use nnrp_rs.OperationState.{is_terminal, can_transition_to}
use nnrp_rs.OperationState.{OperationState}
use nnrp_rs.Error.{
  Result, ok, err, ◌>>=◌, ◌>>◌, reject_if, ok_or, unknown_operation, invalid_operation_relationship,
  invalid_operation_transition, invalid_protocol_combination,
}
use nnrp_rs.Enums.MessageType.{MessageType}

-- The test of `expire_if_stale` that lets an operation live on.
still_fresh : OperationSchedule → ℕ → Bool
still_fresh s now_unix_ms =
    bit_and s.flags scheduling_flag_discard_stale == 0
    || s.expire_at_unix_ms == 0
    || ltb now_unix_ms s.expire_at_unix_ms

expire : OperationRegistry → ℕ → ℕ → OperationRecord → Call (Option OperationSchedule)
unfolding still_fresh
expire r operation_id now_unix_ms rec =
    if is_terminal rec.state
    then (r, ok none)
    else if still_fresh rec.schedule now_unix_ms
    then (r, ok none)
    else if not (can_transition_to rec.state OperationState.superseded)
    then (r, err (invalid_operation_transition rec.state OperationState.superseded))
    else (
      put r operation_id (record rec { state = OperationState.superseded }),
      ok (some rec.schedule),
    )

unfoldable pub expire_if_stale : OperationRegistry → ℕ → ℕ → Call (Option OperationSchedule)
unfolding expire
expire_if_stale r operation_id now_unix_ms = elim (operation r operation_id) [
  | none ↦ (r, err (unknown_operation operation_id))
  | some rec ↦ expire r operation_id now_unix_ms rec
]

check_scheduled : OperationRegistry → ℕ → SchedulingMetadata → Result OperationRecord
check_scheduled r session_id m = do
  rec ← ok_or (operation r m.operation_id) (unknown_operation m.operation_id)
  reject_if (rec.descriptor.session_id != session_id) (
      invalid_operation_relationship "scheduling update session_id must match the target operation")
  reject_if (is_terminal rec.state) (invalid_operation_transition rec.state rec.state)
  ok rec

-- The `match` of `apply_scheduling_update` on the message type.
reschedule : MessageType → SchedulingMetadata → OperationSchedule → Result OperationSchedule
reschedule MessageType.priority_update m s =
    ok (record s { priority_class = m.priority_class; priority_delta = m.priority_delta })
reschedule MessageType.deadline m s = ok (record s { deadline_unix_ms = m.deadline_unix_ms })
reschedule MessageType.expire_at m s =
    ok (record s { expire_at_unix_ms = m.deadline_unix_ms; flags = m.flags })
reschedule _ m s = err (
    invalid_protocol_combination
      "scheduling update requires PRIORITY_UPDATE, DEADLINE, or EXPIRE_AT")

-- The sequence number is assigned before the message type is looked at, also where that fails.
store_schedule :
    OperationRegistry
    → ℕ
    → OperationRecord
    → OperationSchedule
    → Result OperationSchedule
    → Call OperationSchedule
store_schedule r operation_id rec numbered (ok s) =
    (put r operation_id (record rec { schedule = s }), ok s)
store_schedule r operation_id rec numbered (err e) =
    (put r operation_id (record rec { schedule = numbered }), err e)

unfoldable pub apply_scheduling_update :
    OperationRegistry → ℕ → MessageType → SchedulingMetadata → Call OperationSchedule
unfolding check_scheduled reschedule store_schedule
apply_scheduling_update r session_id message_type m = elim (check_scheduled r session_id m) [
  | err e ↦ (r, err e)
  | ok rec ↦
      let numbered : OperationSchedule = record (rec.schedule) {
        update_sequence = m.control_sequence;
      } in
      store_schedule r m.operation_id rec numbered (reschedule message_type m numbered)
]
