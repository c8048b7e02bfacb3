-- ===== src/Operation/Scheduling/Validated.antt =====
-- A scheduling message that passes its rules is one that the registry can store.
use nnrp_rs.Base.{ℕ, ◌≡◌, ◌≢◌, ◌≤◌, refl, inl, inr, arith, some, bit_and, ==_iff}
use nnrp_rs.Base.Dict.{get-set}
use nnrp_rs.Error.{ok}
use nnrp_rs.OperationState.{OperationState}
use nnrp_rs.Enums.MessageType.{MessageType}
use nnrp_rs.Control.Semantics.{validate_scheduling_semantics}
use nnrp_rs.Operation.{OperationRecord, OperationSchedule, OperationRegistry, operation, put}
use nnrp_rs.Operation.Scheduling.{
  SchedulingMetadata, scheduling_flag_discard_stale, apply_scheduling_update, expire_if_stale,
}
use nnrp_rs.Operation.Scheduling.Evolution.{IsStale, expire_if_stale_lem}
use nnrp_rs.Operation.Scheduling.Updates.{
  IsScheduled, IsSchedulingType, Asks, apply_scheduling_update_lem,
}

validated_type :
    (kind : MessageType) (m : SchedulingMetadata)
    → validate_scheduling_semantics kind m ≡ ok tt
    → IsSchedulingType kind
unfolding validate_scheduling_semantics
validated_type MessageType.priority_update m e = inl refl
validated_type MessageType.deadline m e = inr (inl refl)
validated_type MessageType.expire_at m e = inr (inr refl)
validated_type _ m e = absurd (ground arith)

-- A scheduling message that `validate_scheduling_semantics` accepts does not fail on an operation of
-- its session that has not ended: the operation gets the schedule that the message asks for.
pub validated_update_applies :
    (r : OperationRegistry) (session_id : ℕ) (kind : MessageType) (m : SchedulingMetadata)
    (rec : OperationRecord)
    → validate_scheduling_semantics kind m ≡ ok tt
    → IsScheduled r session_id m rec
    → (s : OperationSchedule) × Asks kind m rec.schedule s
      × (apply_scheduling_update r session_id kind m
          ≡ (put r m.operation_id (record rec { schedule = s }), ok s))
validated_update_applies r session_id kind m rec valid scheduled =
    let (s, asks, outcome) = apply_scheduling_update_lem r session_id kind m rec scheduled in
    (
      s,
      asks,
      elim outcome [
        | inl (known, e) ↦ e
        | inr (unknown, _) ↦ absurd (unknown (validated_type kind m valid))
      ],
    )

-- An EXPIRE_AT with a time and the flag to discard the operation when it is stale makes an
-- operation of its session that has not ended expire: after it, `expire_if_stale` supersedes the
-- operation from the given time on.
pub expire_at_then_expires :
    (r r' : OperationRegistry) (session_id now : ℕ) (m : SchedulingMetadata) (rec : OperationRecord)
    (s : OperationSchedule)
    → IsScheduled r session_id m rec
    → m.deadline_unix_ms ≢ 0
    → bit_and m.flags scheduling_flag_discard_stale ≢ 0
    → m.deadline_unix_ms ≤ now
    → apply_scheduling_update r session_id MessageType.expire_at m ≡ (r', ok s)
    → expire_if_stale r' m.operation_id now ≡ (
      put r' m.operation_id (record rec { state = OperationState.superseded; schedule = s }),
      ok (some s),
    )
expire_at_then_expires r r' session_id now m rec s scheduled set discards over e =
    let (s', asks, outcome) =
      apply_scheduling_update_lem r session_id MessageType.expire_at m rec scheduled in
    elim outcome [
      | inr (unknown, _) ↦ absurd (unknown (inr (inr refl)))
      | inl (known, e') ↦
          let rec' : OperationRecord = record rec { schedule = s } in
          let same : s ≡ s' = ground arith in
          let stored : r' ≡ put r m.operation_id rec' = ground arith in
          let found : operation r' m.operation_id ≡ some rec' = ground (
            arith,
            scheduled.found,
            get-set m.operation_id m.operation_id rec' rec r.operations,
            ==_iff m.operation_id m.operation_id,
          ) in
          let stale : IsStale rec' now = record {
            active = scheduled.active;
            discards = ground arith;
            expires = ground arith;
            over = ground arith;
          } in
          elim (expire_if_stale_lem r' m.operation_id now rec' found) [
            | inl (_, expired) ↦ expired
            | inr (fresh, _) ↦ absurd (fresh stale)
          ]
    ]
