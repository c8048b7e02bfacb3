-- ===== src/Operation/Evolution.antt =====
-- How the registry changes when no operation is added: descriptors stay, states follow the diagram.
use nnrp_rs.Base.{
  ℕ, ◌≡◌, refl, inl, inr, ap, ◌∙◌, true, false, none, some, arith, Bool-cases, Option-cases, ◌==◌,
  subst,
}
use nnrp_rs.Base.Dict.{get-set, Above-set, Ascends}
use nnrp_rs.OperationState.{OperationState, is_terminal, can_transition_to}
use nnrp_rs.Error.{ok, Result-cases}
use nnrp_rs.Operation.{
  OperationRecord, OperationRegistry, operation, put, transition, complete, abort, check_active,
  start_running, finish_complete,
}

-- One state follows another by moves that `can_transition_to` allows.
pub data Reaches : OperationState → OperationState → Type 0 where
  stay : {s : OperationState} → Reaches s s
  move : {s t u : OperationState} → can_transition_to s t ≡ true → Reaches t u → Reaches s u

pub Reaches-trans : {s t u : OperationState} → Reaches s t → Reaches t u → Reaches s u
Reaches-trans stay b = b
Reaches-trans (move m a) b = move m (Reaches-trans a b)

-- A terminal state is left by no move.
pub Reaches-terminal : {s t : OperationState} → Reaches s t → is_terminal s ≡ true → t ≡ s
unfolding can_transition_to
Reaches-terminal stay h = refl
Reaches-terminal (move m a) h = absurd (ground arith)

pub record Evolves (r r' : OperationRegistry) : Type 0 where
  pub missing : (k : ℕ) → operation r k ≡ none → operation r' k ≡ none
  pub present :
      (k : ℕ) (rec : OperationRecord)
      → operation r k ≡ some rec
      → (rec' : OperationRecord) × (operation r' k ≡ some rec')
        × (rec'.descriptor ≡ rec.descriptor)
        × Reaches rec.state rec'.state
  pub ascends : Ascends r.operations → Ascends r'.operations

pub Evolves-refl : (r : OperationRegistry) → Evolves r r
Evolves-refl r = record {
  missing = λ k h. h;
  present = λ k rec h. (rec, h, refl, stay);
  ascends = λ h. h;
}

pub Evolves-trans : {r s t : OperationRegistry} → Evolves r s → Evolves s t → Evolves r t
Evolves-trans a b = record {
  missing = λ k h. b.missing k (a.missing k h);
  present = λ k rec h.
      let (rec', f, d, m) = a.present k rec h in
      let (rec'', f', d', m') = b.present k rec' f in (rec'', f', d' ∙ d, Reaches-trans m m');
  ascends = λ h. b.ascends (a.ascends h);
}

pub put-Evolves :
    (r : OperationRegistry) (id : ℕ) (rec rec' : OperationRecord)
    → operation r id ≡ some rec
    → rec'.descriptor ≡ rec.descriptor
    → Reaches rec.state rec'.state
    → Evolves r (put r id rec')
put-Evolves r id rec rec' found same moves = record {
  missing = λ k h. ground (arith, get-set k id rec' rec r.operations);
  present = λ k old h.
      let g = get-set k id rec' rec r.operations in
      elim (Bool-cases (id == k)) [
        | inl hit ↦
            let e : rec ≡ old = ground arith in
            (
              rec',
              ground arith,
              same ∙ ap (λ x. x.descriptor) e,
              subst (λ x. Reaches x.state rec'.state) e moves,
            )
        | inr miss ↦ (old, ground arith, refl, stay)
      ];
  ascends = Above-set 0 id rec' r.operations;
}

-- One assignment, and otherwise nothing.
pub one_move : {s t : OperationState} → can_transition_to s t ≡ true → Reaches s t
one_move m = move m stay

pub transition-Evolves :
    (r : OperationRegistry) (id : ℕ) (next : OperationState) → Evolves r (transition r id next).0
unfolding transition
transition-Evolves r id next = elim (Option-cases (operation r id)) [
  | inl missing ↦ rw missing (Evolves-refl r)
  | inr (rec, found) ↦ rw found (elim (Bool-cases (can_transition_to rec.state next)) [
    | inl m ↦ rw m (put-Evolves r id rec _ found refl (one_move m))
    | inr m ↦ rw m (Evolves-refl r)
  ])
]

pub abort-Evolves : (r : OperationRegistry) (id : ℕ) → Evolves r (abort r id).0
unfolding abort
abort-Evolves r id = elim (Option-cases (operation r id)) [
  | inl missing ↦ rw missing (Evolves-refl r)
  | inr (rec, found) ↦
      rw found (elim (Bool-cases (can_transition_to rec.state OperationState.failed)) [
        | inl m ↦ rw m (put-Evolves r id rec _ found refl (one_move m))
        | inr m ↦ rw m (Evolves-refl r)
      ])
]

check_active-ok :
    (r : OperationRegistry) (id : ℕ) (target : OperationState) (rec : OperationRecord)
    → check_active r id target ≡ ok rec
    → (operation r id ≡ some rec) × (is_terminal rec.state ≡ false)
unfolding check_active
check_active-ok r id target rec e = ground arith

start_running-Evolves :
    (s : OperationState) (r : OperationRegistry) (id : ℕ) (rec : OperationRecord)
    → operation r id ≡ some rec
    → rec.state ≡ s
    → Evolves r (start_running s r id rec).0
      × (operation (start_running s r id rec).0 id ≡ some (start_running s r id rec).1)
unfolding start_running can_transition_to
start_running-Evolves OperationState.accepted r id rec found e =
    let running : OperationRecord = record rec { state = OperationState.running } in
    let g = get-set id id running rec r.operations in
    (put-Evolves r id rec running found refl (one_move (ground arith)), ground arith)
start_running-Evolves _ r id rec found e = (Evolves-refl r, found)

finish_complete-Evolves :
    (r : OperationRegistry) (id : ℕ) (rec : OperationRecord)
    → operation r id ≡ some rec
    → Evolves r (finish_complete r id rec).0
unfolding finish_complete
finish_complete-Evolves r id rec found =
    elim (Bool-cases (can_transition_to rec.state OperationState.completed)) [
      | inl m ↦ rw m (put-Evolves r id rec _ found refl (one_move m))
      | inr m ↦ rw m (Evolves-refl r)
    ]

pub complete-Evolves : (r : OperationRegistry) (id : ℕ) → Evolves r (complete r id).0
unfolding complete
complete-Evolves r id = elim (Result-cases (check_active r id OperationState.completed)) [
  | inl (rec, e) ↦
      let found = (check_active-ok r id OperationState.completed rec e).0 in
      let (a, found') = start_running-Evolves rec.state r id rec found refl in
      rw (e, complete) (Evolves-trans a (finish_complete-Evolves _ id _ found'))
  | inr (x, e) ↦ rw (e, complete) (Evolves-refl r)
]
