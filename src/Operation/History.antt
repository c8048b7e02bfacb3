-- ===== src/Operation/History.antt =====
-- Histories of calls on a registry of operations: what holds after any of them.
use nnrp_rs.Base.Dict.{get-insert}
use nnrp_rs.Base.{
  ℕ, ◌≡◌, refl, inl, inr, List, [], ◌∷◌, Option, none, some, arith, ap, sym, ◌∙◌, Bool-cases, ◌==◌,
  ==_iff, false, ◌⊎◌,
}
use mathlib.Core.Option
use nnrp_rs.Enums.MessageType.{MessageType}
use nnrp_rs.OperationState.{OperationState, is_terminal}
use nnrp_rs.Operation.{
  OperationDescriptor, OperationRecord, OperationRegistry, new, operation, register, transition,
  complete, abort, accepted_record,
}
use nnrp_rs.Operation.Scheduling.{SchedulingMetadata, expire_if_stale, apply_scheduling_update}
use nnrp_rs.Operation.Scheduling.Evolution.{
  expire_if_stale-Evolves, apply_scheduling_update-Evolves,
}
use nnrp_rs.Operation.Cancel.{OperationCancelRequest, cancel}
use nnrp_rs.Operation.Cancel.Whole.{cancel_lem}
use nnrp_rs.Operation.Evolution.{
  Reaches, Reaches-trans, Reaches-terminal, Evolves, Evolves-refl, transition-Evolves,
  complete-Evolves, abort-Evolves, stay,
}
use nnrp_rs.Operation.Invariant.{Inv, new-Inv, Evolves-Inv}
use nnrp_rs.Operation.Registration.{register_lem, register-Inv}

-- The calls that change a registry.
pub data Event : Type 0 where
  registers : OperationDescriptor → Event
  transitions : ℕ → OperationState → Event
  completes : ℕ → Event
  aborts : ℕ → Event
  expires : ℕ → ℕ → Event
  schedules : ℕ → MessageType → SchedulingMetadata → Event
  cancels : OperationCancelRequest → Event

-- The registry after a call, the result forgotten; `none` is a panic.
unfoldable pub step : OperationRegistry → Event → Option OperationRegistry
step r (registers d) = some (register r d).0
step r (transitions id next) = some (transition r id next).0
step r (completes id) = some (complete r id).0
step r (aborts id) = some (abort r id).0
step r (expires id now) = some (expire_if_stale r id now).0
step r (schedules session_id kind m) = some (apply_scheduling_update r session_id kind m).0
step r (cancels request) = Option.map (λ c. c.0) (cancel r request)

unfoldable pub run : OperationRegistry → List Event → Option OperationRegistry
run r [] = some r
run r (e ∷ es) = elim (step r e) [ none ↦ none | some r' ↦ run r' es ]

-- What no call changes about an operation: its descriptor. Its state moves as the diagram allows.
pub record Follows (r r' : OperationRegistry) : Type 0 where
  pub follows :
      (k : ℕ) (rec : OperationRecord)
      → operation r k ≡ some rec
      → (rec' : OperationRecord) × (operation r' k ≡ some rec')
        × (rec'.descriptor ≡ rec.descriptor)
        × Reaches rec.state rec'.state

Follows-trans : {r s t : OperationRegistry} → Follows r s → Follows s t → Follows r t
Follows-trans a b = record {
  follows = λ k rec h.
      let (rec', f, d, m) = a.follows k rec h in
      let (rec'', f', d', m') = b.follows k rec' f in (rec'', f', ground arith, Reaches-trans m m');
}

Evolves-Follows : {r r' : OperationRegistry} → Evolves r r' → Follows r r'
Evolves-Follows v = record { follows = v.present }

register-Follows : (r : OperationRegistry) (d : OperationDescriptor) → Follows r (register r d).0
register-Follows r d = elim (register_lem r d) [
  | inl (q, e) ↦ rw e (record {
    follows = λ k rec found.
        let g = get-insert k d.operation_id (accepted_record d) r.operations in
        elim (Bool-cases (d.operation_id == k)) [
          | inl hit ↦ absurd (ground (arith, ==_iff d.operation_id k, q.fresh))
          | inr miss ↦ (rec, ground arith, refl, stay)
        ];
  })
  | inr (_, (x, e)) ↦ rw e (Evolves-Follows (Evolves-refl r))
]

-- A call that the registry survives, and what it does.
abbrev Survives : OperationRegistry → Option OperationRegistry → Type 0
Survives r next = (r' : OperationRegistry) × (next ≡ some r') × Inv r' × Follows r r'

Evolves-Survives : (r r' : OperationRegistry) → Inv r → Evolves r r' → Survives r (some r')
Evolves-Survives r r' inv v = (r', refl, Evolves-Inv r r' v inv, Evolves-Follows v)

cancel-Survives :
    (r : OperationRegistry) (request : OperationCancelRequest)
    → Inv r
    → Survives r (Option.map (λ c. c.0) (cancel r request))
cancel-Survives r request inv = elim (cancel_lem r request inv) [
  | inl (target, checks, (r', cancelled, ids, e, names, effect)) ↦
      rw (e, Option.map) (Evolves-Survives r r' inv effect.evolves)
  | inr (_, (x, e)) ↦ rw (e, Option.map) (Evolves-Survives r r inv (Evolves-refl r))
]

-- No call panics on a registry that satisfies the invariant, and each keeps it.
step-Survives : (r : OperationRegistry) (e : Event) → Inv r → Survives r (step r e)
unfolding step
step-Survives r (registers d) inv =
    ((register r d).0, refl, register-Inv r d inv, register-Follows r d)
step-Survives r (transitions id next) inv = Evolves-Survives r _ inv (transition-Evolves r id next)
step-Survives r (completes id) inv = Evolves-Survives r _ inv (complete-Evolves r id)
step-Survives r (aborts id) inv = Evolves-Survives r _ inv (abort-Evolves r id)
step-Survives r (expires id now) inv = Evolves-Survives r _ inv (expire_if_stale-Evolves r id now)
step-Survives r (schedules session_id kind m) inv =
    Evolves-Survives r _ inv (apply_scheduling_update-Evolves r session_id kind m)
step-Survives r (cancels request) inv = cancel-Survives r request inv

pub run-Survives : (r : OperationRegistry) (es : List Event) → Inv r → Survives r (run r es)
unfolding run
run-Survives r [] inv = (r, refl, inv, Evolves-Follows (Evolves-refl r))
run-Survives r (e ∷ es) inv =
    let (r', stepped, inv', a) = step-Survives r e inv in
    let (r'', ran, inv'', b) = run-Survives r' es inv' in
    (r'', rw (stepped, run) ran, inv'', Follows-trans a b)

-- No sequence of calls on a new registry panics, failed calls included, and afterwards every operation
-- is stored under its own identifier, no identifier is 0, every parent is a known operation of the
-- same session, and parents form no cycle.
pub run-new_total : (es : List Event) → (r : OperationRegistry) × (run new es ≡ some r) × Inv r
run-new_total es = let (r, e, inv, f) = run-Survives new es new-Inv in (r, e, inv)

-- Whatever calls follow on a registry that satisfies the invariant, an operation stays known with
-- its descriptor, its state moves only as `can_transition_to` allows, and once it has ended its
-- state stays as it is.
pub run_follows :
    (r r' : OperationRegistry) (es : List Event) (k : ℕ) (rec : OperationRecord)
    → Inv r
    → run r es ≡ some r'
    → operation r k ≡ some rec
    → (rec' : OperationRecord) × (operation r' k ≡ some rec')
      × (rec'.descriptor ≡ rec.descriptor)
      × Reaches rec.state rec'.state
      × ((is_terminal rec.state ≡ false) ⊎ (rec'.state ≡ rec.state))
run_follows r r' es k rec inv ran found =
    let (r'', e, inv', f) = run-Survives r es inv in
    let same : r'' ≡ r' = ground arith in
    let (rec', known, kept, moves) = f.follows k rec found in
    (
      rec',
      ap (λ x. operation x k) (sym same) ∙ known,
      kept,
      moves,
      elim (Bool-cases (is_terminal rec.state)) [
        | inl ended ↦ inr (Reaches-terminal moves ended)
        | inr active ↦ inl active
      ],
    )
