-- ===== src/Operation/Completion.antt =====
-- OperationRegistry::complete: which operations it completes, and what it does to the others.
use nnrp_rs.Base.{
  ℕ, ◌≡◌, ◌≢◌, refl, ◌⊎◌, inl, inr, true, false, some, arith, ==_iff, ◌∙◌, Bool-cases,
}
use nnrp_rs.Base.Dict.{get-set}
use nnrp_rs.Error.{ok, err, invalid_operation_transition}
use nnrp_rs.OperationState.{OperationState, is_terminal, can_transition_to}
use nnrp_rs.Operation.{
  OperationRecord, OperationRegistry, Call, operation, put, complete, check_active, start_running,
  finish_complete,
}

-- The states that `complete` completes from.
abbrev pub CanComplete : OperationState → Type 0
CanComplete s =
    (s ≡ OperationState.accepted) ⊎ ((s ≡ OperationState.running) ⊎ (s ≡ OperationState.partial))

-- What `complete` does with a known operation.
abbrev pub CompleteOutcome : OperationRegistry → ℕ → OperationRecord → Call (Unit {0}) → Type 0
CompleteOutcome r id rec result =
    (CanComplete rec.state
      × ((r' : OperationRegistry) × (result ≡ (r', ok tt))
          × (operation r' id ≡ some (record rec { state = OperationState.completed }))
          × ((k : ℕ) → id ≢ k → operation r' k ≡ operation r k)))
    ⊎ ((¬ CanComplete rec.state)
        × (result ≡ (r, err (invalid_operation_transition rec.state OperationState.completed))))

check_active_lem :
    (r : OperationRegistry) (id : ℕ) (rec : OperationRecord) (target : OperationState)
    → operation r id ≡ some rec
    → is_terminal rec.state ≡ false
    → check_active r id target ≡ ok rec
unfolding check_active
check_active_lem r id rec target found active = ground arith

check_active_ended :
    (r : OperationRegistry) (id : ℕ) (rec : OperationRecord) (target : OperationState)
    → operation r id ≡ some rec
    → is_terminal rec.state ≡ true
    → check_active r id target ≡ err (invalid_operation_transition rec.state target)
unfolding check_active
check_active_ended r id rec target found ended = ground arith

-- An assignment changes the operation that it names and no other.
stored_alone :
    (r : OperationRegistry) (id : ℕ) (old rec : OperationRecord)
    → operation r id ≡ some old
    → (operation (put r id rec) id ≡ some rec)
      × ((k : ℕ) → id ≢ k → operation (put r id rec) k ≡ operation r k)
stored_alone r id old rec found = (
  ground (arith, get-set id id rec old r.operations, ==_iff id id),
  λ k other. ground (arith, get-set k id rec old r.operations, ==_iff id k),
)

finishes :
    (r : OperationRegistry) (id : ℕ) (rec : OperationRecord)
    → operation r id ≡ some rec
    → can_transition_to rec.state OperationState.completed ≡ true
    → (r' : OperationRegistry) × (finish_complete r id rec ≡ (r', ok tt))
      × (operation r' id ≡ some (record rec { state = OperationState.completed }))
      × ((k : ℕ) → id ≢ k → operation r' k ≡ operation r k)
unfolding finish_complete
finishes r id rec found m =
    let done : OperationRecord = record rec { state = OperationState.completed } in
    let (here, there) = stored_alone r id rec done found in (put r id done, rw m refl, here, there)

finish-outcome :
    (s : OperationState) (r : OperationRegistry) (id : ℕ) (rec : OperationRecord)
    → operation r id ≡ some rec
    → rec.state ≡ s
    → is_terminal s ≡ false
    → CompleteOutcome r id rec
        (finish_complete (start_running s r id rec).0 id (start_running s r id rec).1)
unfolding start_running finish_complete can_transition_to is_terminal
finish-outcome OperationState.accepted r id rec found same active =
    let running : OperationRecord = record rec { state = OperationState.running } in
    let (here, there) = stored_alone r id rec running found in
    let (r', e, done, others) = finishes (put r id running) id running here refl in
    inl (inl same, (r', e, done, λ k other. others k other ∙ there k other))
finish-outcome OperationState.waiting_tool r id rec found same active =
    inr ((λ c. ground arith), rw same refl)
finish-outcome OperationState.running r id rec found same active =
    inl (inr (inl same), finishes r id rec found (ground arith))
finish-outcome OperationState.partial r id rec found same active =
    inl (inr (inr same), finishes r id rec found (ground arith))
finish-outcome OperationState.superseded r id rec found same active = absurd (ground arith)
finish-outcome OperationState.cancelled r id rec found same active = absurd (ground arith)
finish-outcome OperationState.failed r id rec found same active = absurd (ground arith)
finish-outcome OperationState.completed r id rec found same active = absurd (ground arith)

-- `complete` on a known operation completes it exactly when it is accepted, running or partial, and
-- changes no other operation; otherwise it fails and changes nothing.
pub complete_lem :
    (r : OperationRegistry) (id : ℕ) (rec : OperationRecord)
    → operation r id ≡ some rec
    → CompleteOutcome r id rec (complete r id)
unfolding complete is_terminal
complete_lem r id rec found = elim (Bool-cases (is_terminal rec.state)) [
  | inl ended ↦
      rw (check_active_ended r id rec OperationState.completed found ended, complete)
        (inr ((λ c. ground arith), refl))
  | inr active ↦
      rw (check_active_lem r id rec OperationState.completed found active, complete)
        (finish-outcome rec.state r id rec found refl active)
]
