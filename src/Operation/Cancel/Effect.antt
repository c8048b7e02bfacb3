-- ===== src/Operation/Cancel/Effect.antt =====
-- The last loop of `cancel`: which operations it ends, and that it does not panic.
use nnrp_rs.Base.{
  ℕ, ◌≡◌, refl, inl, inr, Bool, true, false, not, ◌&&◌, List, [], ◌∷◌, Option, none, some, arith,
  if◌then◌else◌, ◌==◌, Bool-cases, ==_iff,
}
use mathlib.Core.Option
use nnrp_rs.Base.Dict.{get-set}
use nnrp_rs.OperationState.{OperationState, is_terminal, can_transition_to}
use nnrp_rs.Operation.{OperationRecord, OperationRegistry, operation, put}
use nnrp_rs.Operation.Evolution.{Evolves, Evolves-refl, Evolves-trans, put-Evolves, one_move}
use nnrp_rs.Operation.Cancel.{member, sort_unstable, cancel_each}
use nnrp_rs.Operation.Cancel.Subtree.{member-insert_sorted}

-- Every operation that has not ended may be cancelled.
cancelled_allowed :
    (s : OperationState)
    → is_terminal s ≡ false
    → can_transition_to s OperationState.cancelled ≡ true
unfolding is_terminal can_transition_to
cancelled_allowed OperationState.accepted h = refl
cancelled_allowed _ h = ground arith

abbrev pub cancelled_record : OperationRecord → OperationRecord
cancelled_record rec = record rec { state = OperationState.cancelled }

-- The operation is known and has not ended.
abbrev pub is_active : Option OperationRecord → Bool
is_active none = false
is_active (some rec) = not (is_terminal rec.state)

-- What the loop does to each operation, and which identifiers it gives.
pub record Cancels (r r' : OperationRegistry) (operation_ids cancelled : List ℕ) : Type 0 where
  pub effect :
      (k : ℕ) (rec : OperationRecord)
      → operation r k ≡ some rec
      → operation r' k
        ≡ some (
            if member k operation_ids && not (is_terminal rec.state)
            then cancelled_record rec
            else rec)
  pub named : (k : ℕ) → member k cancelled ≡ (member k operation_ids && is_active (operation r k))
  pub evolves : Evolves r r'

abbrev AllKnown : OperationRegistry → List ℕ → Type 0
AllKnown r operation_ids =
    (k : ℕ) → member k operation_ids ≡ true → (rec : OperationRecord) × (operation r k ≡ some rec)

skip-Cancels :
    (r r' : OperationRegistry) (id : ℕ) (rec : OperationRecord) (operation_ids cancelled : List ℕ)
    → operation r id ≡ some rec
    → is_terminal rec.state ≡ true
    → Cancels r r' operation_ids cancelled
    → Cancels r r' (id ∷ operation_ids) cancelled
unfolding member
skip-Cancels r r' id rec operation_ids cancelled found ended c = record {
  effect = λ k old e. let now = c.effect k old e in let i = ==_iff id k in ground arith;
  named = λ k. let now = c.named k in let i = ==_iff id k in ground arith;
  evolves = c.evolves;
}

take-Cancels :
    (r r' : OperationRegistry) (id : ℕ) (rec : OperationRecord) (operation_ids cancelled : List ℕ)
    → operation r id ≡ some rec
    → is_terminal rec.state ≡ false
    → Cancels (put r id (cancelled_record rec)) r' operation_ids cancelled
    → Cancels r r' (id ∷ operation_ids) (id ∷ cancelled)
unfolding member is_terminal
take-Cancels r r' id rec operation_ids cancelled found active c = record {
  effect = λ k old e.
      let g = get-set k id (cancelled_record rec) rec r.operations in
      elim (Bool-cases (id == k)) [
        | inl hit ↦
            let stored : operation (put r id (cancelled_record rec)) k
                ≡ some (cancelled_record rec) =
              ground arith in
            let now = c.effect k (cancelled_record rec) stored in
            let same : old ≡ rec = ground (arith, ==_iff id k) in ground arith
        | inr miss ↦
            let stored : operation (put r id (cancelled_record rec)) k ≡ some old = ground arith in
            let now = c.effect k old stored in ground arith
      ];
  named = λ k.
      let g = get-set k id (cancelled_record rec) rec r.operations in
      let now = c.named k in
      elim (Bool-cases (id == k)) [
        | inl hit ↦
            let same : operation r k ≡ some rec = ground (arith, ==_iff id k) in ground arith
        | inr miss ↦ ground arith
      ];
  evolves =
      Evolves-trans
        (put-Evolves r id rec (cancelled_record rec) found refl
          (one_move (cancelled_allowed rec.state active)))
        c.evolves;
}

AllKnown-tail :
    (r r' : OperationRegistry) (id : ℕ) (operation_ids : List ℕ)
    → Evolves r r'
    → AllKnown r (id ∷ operation_ids)
    → AllKnown r' operation_ids
unfolding member
AllKnown-tail r r' id operation_ids v known k m =
    let (rec, found) = known k (ground arith) in
    let (rec', found', same, moves) = v.present k rec found in (rec', found')

-- On known operations the loop does not panic.
pub cancel_each_lem :
    (r : OperationRegistry) (operation_ids : List ℕ)
    → AllKnown r operation_ids
    → (r' : OperationRegistry) × (cancelled : List ℕ) × (cancel_each r operation_ids
        ≡ some (r', cancelled))
      × Cancels r r' operation_ids cancelled
unfolding cancel_each member
cancel_each_lem r [] known =
    (r, [], refl, record { effect = λ k rec e. e; named = λ k. refl; evolves = Evolves-refl r })
cancel_each_lem r (id ∷ operation_ids) known =
    let (rec, found) = known id (ground (arith, ==_iff id id)) in
    elim (Bool-cases (is_terminal rec.state)) [
      | inl ended ↦
          let (r', cancelled, e, c) =
            cancel_each_lem r operation_ids
              (AllKnown-tail r r id operation_ids (Evolves-refl r) known) in
          (
            r',
            cancelled,
            rw (found, cancel_each) (rw (ended, cancel_each) e),
            skip-Cancels r r' id rec operation_ids cancelled found ended c,
          )
      | inr active ↦
          let now = put r id (cancelled_record rec) in
          let v =
            put-Evolves r id rec (cancelled_record rec) found refl
              (one_move (cancelled_allowed rec.state active)) in
          let (r', cancelled, e, c) =
            cancel_each_lem now operation_ids (AllKnown-tail r now id operation_ids v known) in
          (
            r',
            id ∷ cancelled,
            rw (found, cancel_each) (rw (active, cancel_each) (rw (e, Option.map))),
            take-Cancels r r' id rec operation_ids cancelled found active c,
          )
    ]

pub member-sort_unstable : (k : ℕ) (xs : List ℕ) → member k (sort_unstable xs) ≡ member k xs
unfolding sort_unstable member
member-sort_unstable k [] = refl
member-sort_unstable k (x ∷ xs) =
    ground (arith, member-sort_unstable k xs, member-insert_sorted k x (sort_unstable xs))
