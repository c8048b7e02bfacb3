-- ===== src/Operation/Scheduling/Updates.antt =====
-- OperationRegistry::apply_scheduling_update: what it stores, on every message type.
use nnrp_rs.Base.{ℕ, ◌≡◌, refl, ◌⊎◌, inl, inr, false, some, arith}
use nnrp_rs.Error.{NnrpError, ok, err}
use nnrp_rs.Enums.MessageType.{MessageType}
use nnrp_rs.OperationState.{is_terminal}
use nnrp_rs.Operation.{OperationRecord, OperationSchedule, OperationRegistry, Call, operation, put}
use nnrp_rs.Operation.Scheduling.{
  SchedulingMetadata, check_scheduled, reschedule, store_schedule, apply_scheduling_update,
}

-- The schedule that a message asks for; it names the fields that the message sets.
pub record IsRescheduled (m : SchedulingMetadata) (old new : OperationSchedule)
    (priority_class priority_delta deadline expiry flags : ℕ) : Type 0 where
  pub same_class : new.priority_class ≡ priority_class
  pub same_delta : new.priority_delta ≡ priority_delta
  pub same_deadline : new.deadline_unix_ms ≡ deadline
  pub same_expiry : new.expire_at_unix_ms ≡ expiry
  pub same_flags : new.flags ≡ flags
  pub numbered : new.update_sequence ≡ m.control_sequence

abbrev pub Asks : MessageType → SchedulingMetadata → OperationSchedule → OperationSchedule → Type 0
Asks MessageType.priority_update m old new =
    IsRescheduled m old new m.priority_class m.priority_delta old.deadline_unix_ms
      old.expire_at_unix_ms old.flags
Asks MessageType.deadline m old new =
    IsRescheduled m old new old.priority_class old.priority_delta m.deadline_unix_ms
      old.expire_at_unix_ms old.flags
Asks MessageType.expire_at m old new =
    IsRescheduled m old new old.priority_class old.priority_delta old.deadline_unix_ms
      m.deadline_unix_ms m.flags
Asks _ m old new =
    IsRescheduled m old new old.priority_class old.priority_delta old.deadline_unix_ms
      old.expire_at_unix_ms old.flags

-- The update is for a known operation of the session that has not ended.
pub record IsScheduled (r : OperationRegistry) (session_id : ℕ) (m : SchedulingMetadata)
    (rec : OperationRecord) : Type 0 where
  pub found : operation r m.operation_id ≡ some rec
  pub same_session : rec.descriptor.session_id ≡ session_id
  pub active : is_terminal rec.state ≡ false

abbrev pub IsSchedulingType : MessageType → Type 0
IsSchedulingType kind =
    (kind ≡ MessageType.priority_update)
    ⊎ ((kind ≡ MessageType.deadline) ⊎ (kind ≡ MessageType.expire_at))

check_scheduled_ok :
    (r : OperationRegistry) (session_id : ℕ) (m : SchedulingMetadata) (rec : OperationRecord)
    → IsScheduled r session_id m rec
    → check_scheduled r session_id m ≡ ok rec
unfolding check_scheduled
check_scheduled_ok r session_id m rec s = ground (arith, s.found, s.same_session, s.active)

-- What the registry stores and answers, the schedule being given.
abbrev pub UpdateOutcome :
    OperationRegistry
    → ℕ
    → OperationRecord
    → MessageType
    → OperationSchedule
    → Call OperationSchedule
    → Type 0
UpdateOutcome r id rec kind s result =
    (IsSchedulingType kind × (result ≡ (put r id (record rec { schedule = s }), ok s)))
    ⊎ ((¬ IsSchedulingType kind)
        × ((e : NnrpError) × (result ≡ (put r id (record rec { schedule = s }), err e))))

reschedule-outcome :
    (kind : MessageType) (r : OperationRegistry) (rec : OperationRecord) (m : SchedulingMetadata)
    → (s : OperationSchedule) × Asks kind m rec.schedule s
      × UpdateOutcome r m.operation_id rec kind s (
          store_schedule r m.operation_id rec
            (record (rec.schedule) { update_sequence = m.control_sequence })
            (reschedule kind m (record (rec.schedule) { update_sequence = m.control_sequence })))
unfolding store_schedule reschedule
reschedule-outcome MessageType.priority_update r rec m = (_, ground arith, inl (inl refl, refl))
reschedule-outcome MessageType.deadline r rec m = (_, ground arith, inl (inr (inl refl), refl))
reschedule-outcome MessageType.expire_at r rec m = (_, ground arith, inl (inr (inr refl), refl))
reschedule-outcome _ r rec m = (_, ground arith, inr ((λ k. ground arith), (_, refl)))

-- A scheduling update of an operation of its session that has not ended stores its sequence number
-- and the fields that its message type is about: the priority, the deadline, or the expiry with the
-- flags. On any other message type it fails, and stores the sequence number all the same.
pub apply_scheduling_update_lem :
    (r : OperationRegistry) (session_id : ℕ) (kind : MessageType) (m : SchedulingMetadata)
    (rec : OperationRecord)
    → IsScheduled r session_id m rec
    → (s : OperationSchedule) × Asks kind m rec.schedule s
      × UpdateOutcome r m.operation_id rec kind s (apply_scheduling_update r session_id kind m)
unfolding apply_scheduling_update
apply_scheduling_update_lem r session_id kind m rec scheduled =
    rw (check_scheduled_ok r session_id m rec scheduled, apply_scheduling_update)
      (reschedule-outcome kind r rec m)
