-- ===== src/Operation/Scheduling/Evolution.antt =====
-- What expiry and scheduling updates do to an operation.
use nnrp_rs.Base.{
  ℕ, ◌≡◌, ◌≢◌, ◌≤◌, refl, ◌⊎◌, inl, inr, true, false, Option, none, some, arith, Bool-cases,
  Option-cases, bit_and,
}
use nnrp_rs.OperationState.{OperationState, is_terminal, can_transition_to}
use nnrp_rs.Error.{Result, ok, err, Result-cases}
use nnrp_rs.Enums.MessageType.{MessageType}
use nnrp_rs.Operation.{OperationRecord, OperationRegistry, OperationSchedule, operation, put, Call}
use nnrp_rs.Operation.Evolution.{Evolves, Evolves-refl, put-Evolves, one_move, stay}
use nnrp_rs.Operation.Scheduling.{
  SchedulingMetadata, scheduling_flag_discard_stale, still_fresh, expire, expire_if_stale,
  check_scheduled, store_schedule, apply_scheduling_update,
}

-- Every operation that has not ended may be superseded.
superseded_allowed :
    (s : OperationState)
    → is_terminal s ≡ false
    → can_transition_to s OperationState.superseded ≡ true
unfolding is_terminal can_transition_to
superseded_allowed OperationState.accepted h = refl
superseded_allowed _ h = ground arith

-- The stale operation: it has not ended, its schedule asks to discard it, and the time is up.
pub record IsStale (rec : OperationRecord) (now : ℕ) : Type 0 where
  pub active : is_terminal rec.state ≡ false
  pub discards : bit_and rec.schedule.flags scheduling_flag_discard_stale ≢ 0
  pub expires : rec.schedule.expire_at_unix_ms ≢ 0
  pub over : rec.schedule.expire_at_unix_ms ≤ now

abbrev pub ExpiryOutcome :
    OperationRegistry → ℕ → ℕ → OperationRecord → Call (Option OperationSchedule) → Type 0
ExpiryOutcome r id now rec result =
    (IsStale rec now
      × (result
          ≡ (put r id (record rec { state = OperationState.superseded }), ok (some rec.schedule))))
    ⊎ ((¬ IsStale rec now) × (result ≡ (r, ok none)))

expire-outcome :
    (r : OperationRegistry) (id now : ℕ) (rec : OperationRecord)
    → ExpiryOutcome r id now rec (expire r id now rec)
unfolding expire
expire-outcome r id now rec = elim (Bool-cases (is_terminal rec.state)) [
  | inl ended ↦ inr ((λ stale. ground arith), rw ended)
  | inr active ↦ elim (Bool-cases (still_fresh rec.schedule now)) [
    | inl fresh ↦ inr ((λ stale. ground arith), rw active (rw fresh))
    | inr over ↦ inl (ground arith, rw active (rw over (rw (superseded_allowed rec.state active))))
  ]
]

-- `expire_if_stale` never fails on a known operation. It supersedes exactly the operations that have
-- not ended, are marked to be discarded when stale and whose expiry is set and not after now, and
-- gives their schedule; otherwise it changes nothing.
pub expire_if_stale_lem :
    (r : OperationRegistry) (id now : ℕ) (rec : OperationRecord)
    → operation r id ≡ some rec
    → ExpiryOutcome r id now rec (expire_if_stale r id now)
unfolding expire_if_stale
expire_if_stale_lem r id now rec found = rw (found, expire_if_stale) (expire-outcome r id now rec)

pub expire_if_stale-Evolves :
    (r : OperationRegistry) (id now : ℕ) → Evolves r (expire_if_stale r id now).0
unfolding expire_if_stale
expire_if_stale-Evolves r id now = elim (Option-cases (operation r id)) [
  | inl missing ↦ rw (missing, expire_if_stale) (Evolves-refl r)
  | inr (rec, found) ↦ elim (expire_if_stale_lem r id now rec found) [
    | inl (stale, e) ↦
        rw e
          (put-Evolves r id rec _ found refl (one_move (superseded_allowed rec.state stale.active)))
    | inr (_, e) ↦ rw e (Evolves-refl r)
  ]
]

check_scheduled-ok :
    (r : OperationRegistry) (session_id : ℕ) (m : SchedulingMetadata) (rec : OperationRecord)
    → check_scheduled r session_id m ≡ ok rec
    → operation r m.operation_id ≡ some rec
unfolding check_scheduled
check_scheduled-ok r session_id m rec e = ground arith

store_schedule-Evolves :
    (r : OperationRegistry) (id : ℕ) (rec : OperationRecord) (numbered : OperationSchedule)
    (result : Result OperationSchedule)
    → operation r id ≡ some rec
    → Evolves r (store_schedule r id rec numbered result).0
unfolding store_schedule
store_schedule-Evolves r id rec numbered (ok s) found = put-Evolves r id rec _ found refl stay
store_schedule-Evolves r id rec numbered (err e) found = put-Evolves r id rec _ found refl stay

pub apply_scheduling_update-Evolves :
    (r : OperationRegistry) (session_id : ℕ) (message_type : MessageType) (m : SchedulingMetadata)
    → Evolves r (apply_scheduling_update r session_id message_type m).0
unfolding apply_scheduling_update
apply_scheduling_update-Evolves r session_id message_type m =
    elim (Result-cases (check_scheduled r session_id m)) [
      | inl (rec, e) ↦
          rw (e, apply_scheduling_update)
            (store_schedule-Evolves r m.operation_id rec _ _
              (check_scheduled-ok r session_id m rec e))
      | inr (x, e) ↦ rw (e, apply_scheduling_update) (Evolves-refl r)
    ]
