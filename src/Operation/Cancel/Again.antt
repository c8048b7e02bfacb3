-- ===== src/Operation/Cancel/Again.antt =====
-- Cancelling a second time: everything that the request is about has ended.
use nnrp_rs.Base.{
  ℕ, ◌≡◌, refl, sym, subst, ap, ◌∙◌, inl, inr, true, false, List, [], ◌∷◌, some, arith, ==_iff,
  Bool-cases, Option-cases,
}
use nnrp_rs.Error.{ok}
use nnrp_rs.Enums.CancelScope.{CancelScope}
use nnrp_rs.OperationState.{is_terminal}
use nnrp_rs.Operation.{OperationRecord, OperationRegistry, operation}
use nnrp_rs.Operation.Invariant.{Inv, Evolves-Inv, Evolves-back}
use nnrp_rs.Operation.Cancel.{OperationCancelRequest, member, records, cancel}
use nnrp_rs.Operation.Cancel.Descendants.{Descends, self, child}
use nnrp_rs.Operation.Cancel.Targets.{child_known, known-IsChild}
use nnrp_rs.Operation.Cancel.Scopes.{IsTargeted, NamesTargets}
use nnrp_rs.Operation.Cancel.Effect.{Cancels, is_active}
use nnrp_rs.Operation.Cancel.Whole.{IsCancellable, cancel_lem}
use nnrp_rs.Operation.Evolution.{Evolves}

-- A descendant after a change that adds no operation was one before.
Descends-back :
    (r r' : OperationRegistry) (root k : ℕ)
    → Inv r
    → Inv r'
    → Evolves r r'
    → Descends (records r') root k
    → Descends (records r) root k
Descends-back r r' root k inv inv' v (self e) = self e
Descends-back r r' root k inv inv' v (child {p} {k = k'} d c) =
    let (rec', found', named) =
      child_known 0 p k r'.operations inv'.ascends (λ j x e. (inv'.placed j x e).keyed) c in
    let (rec, found, same) = Evolves-back r r' k rec' v found' in
    child (Descends-back r r' root p inv inv' v d) (
      known-IsChild 0 p k r.operations rec inv.ascends (λ j x e. (inv.placed j x e).keyed) found
        (ap (λ x. x.parent_operation_id) (sym same) ∙ named))

IsTargeted-back :
    (scope : CancelScope) (r r' : OperationRegistry) (request : OperationCancelRequest)
    (target target' rec rec' : OperationRecord) (k : ℕ)
    → Inv r
    → Inv r'
    → Evolves r r'
    → target'.descriptor ≡ target.descriptor
    → rec'.descriptor ≡ rec.descriptor
    → IsTargeted scope r' request target' k rec'
    → IsTargeted scope r request target k rec
IsTargeted-back CancelScope.operation r r' request target target' rec rec' k inv inv' v t d aimed =
    aimed
IsTargeted-back CancelScope.subtree r r' request target target' rec rec' k inv inv' v t d aimed =
    Descends-back r r' request.operation_id k inv inv' v aimed
IsTargeted-back CancelScope.group r r' request target target' rec rec' k inv inv' v t d aimed =
    ap (λ x. x.operation_group_id) (sym d) ∙ aimed ∙ ap (λ x. x.operation_group_id) t
IsTargeted-back CancelScope.session r r' request target target' rec rec' k inv inv' v t d aimed =
    ap (λ x. x.session_id) (sym d) ∙ aimed

none_member : (xs : List ℕ) → ((k : ℕ) → member k xs ≡ false) → xs ≡ []
unfolding member
none_member [] h = refl
none_member (x ∷ xs) h = absurd (ground (arith, h x, ==_iff x x))

-- What was named before has ended afterwards.
named_has_ended :
    (r r' : OperationRegistry) (operation_ids cancelled : List ℕ) (k : ℕ)
    → Cancels r r' operation_ids cancelled
    → member k operation_ids ≡ true
    → is_active (operation r' k) ≡ false
unfolding is_terminal
named_has_ended r r' operation_ids cancelled k effect named = elim (Option-cases (operation r k)) [
  | inl gone ↦ ground (arith, effect.evolves.missing k gone)
  | inr (rec, found) ↦
      let now = effect.effect k rec found in
      elim (Bool-cases (is_terminal rec.state)) [
        | inl ended ↦ ground arith
        | inr active ↦ ground arith
      ]
]

-- A run over operations that have all ended changes nothing.
quiet :
    (r' r'' : OperationRegistry) (operation_ids cancelled : List ℕ)
    → ((k : ℕ) → member k operation_ids ≡ true → is_active (operation r' k) ≡ false)
    → Cancels r' r'' operation_ids cancelled
    → (cancelled ≡ []) × ((k : ℕ) → operation r'' k ≡ operation r' k)
quiet r' r'' operation_ids cancelled ended c = (
  none_member cancelled (λ k. elim (Bool-cases (member k operation_ids)) [
    | inl m ↦ ground (arith, c.named k, ended k m)
    | inr m ↦ ground (arith, c.named k)
  ]),
  λ k. elim (Option-cases (operation r' k)) [
    | inl gone ↦ ground (arith, c.evolves.missing k gone)
    | inr (rec, found) ↦
        let now = c.effect k rec found in
        elim (Bool-cases (member k operation_ids)) [
          | inl m ↦ ground (arith, ended k m)
          | inr m ↦ ground arith
        ]
  ],
)

abbrev Repeats : OperationRegistry → OperationCancelRequest → Type 0
Repeats r' request =
    (r'' : OperationRegistry) × (cancel r' request ≡ some (r'', ok []))
    × ((k : ℕ) → operation r'' k ≡ operation r' k)

kept-IsCancellable :
    (r r' : OperationRegistry) (request : OperationCancelRequest) (target target' : OperationRecord)
    → IsCancellable r request target
    → operation r' request.operation_id ≡ some target'
    → target'.descriptor ≡ target.descriptor
    → IsCancellable r' request target'
kept-IsCancellable r r' request target target' checks found' kept = record {
  found = found';
  same_session = ap (λ x. x.session_id) kept ∙ checks.same_session;
  grouped = λ s e. checks.grouped s (ap (λ x. x.operation_group_id) (sym kept) ∙ e);
}

repeats :
    (r r' : OperationRegistry) (request : OperationCancelRequest) (target : OperationRecord)
    (operation_ids cancelled : List ℕ)
    → Inv r
    → IsCancellable r request target
    → NamesTargets r request target operation_ids
    → Cancels r r' operation_ids cancelled
    → Repeats r' request
repeats r r' request target operation_ids cancelled inv checks names effect =
    let inv' = Evolves-Inv r r' effect.evolves inv in
    let (target', found', kept, moves) =
      effect.evolves.present request.operation_id target checks.found in
    elim (cancel_lem r' request inv') [
      | inr (refused, _) ↦
          absurd
            (refused target' (kept-IsCancellable r r' request target target' checks found' kept))
      | inl (target2, checks2, (r'', cancelled2, operation_ids2, run, names2, effect2)) ↦
          let same_target : target2.descriptor ≡ target.descriptor =
            ground (arith, checks2.found) in
          let (nothing, alone) =
            quiet r' r'' operation_ids2 cancelled2
              (λ k m.
                let (rec', known', aimed') = (names2 k).0 m in
                let (rec, found, same) = Evolves-back r r' k rec' effect.evolves known' in
                let aimed =
                  IsTargeted-back request.cancel_scope r r' request target target2 rec rec' k inv
                    inv' effect.evolves same_target same aimed' in
                named_has_ended r r' operation_ids cancelled k effect
                  ((names k).1 (rec, found, aimed)))
              effect2 in
          (r'', subst (λ x. cancel r' request ≡ some (r'', ok x)) nothing run, alone)
    ]

-- A request that has been carried out on a registry that satisfies the invariant can be repeated:
-- it succeeds again, cancels nothing more, and leaves every operation as it is.
pub cancel_again :
    (r r' : OperationRegistry) (request : OperationCancelRequest) (cancelled : List ℕ)
    → Inv r
    → cancel r request ≡ some (r', ok cancelled)
    → (r'' : OperationRegistry) × (cancel r' request ≡ some (r'', ok []))
      × ((k : ℕ) → operation r'' k ≡ operation r' k)
cancel_again r r' request cancelled inv run = elim (cancel_lem r request inv) [
  | inr (_, (x, failed)) ↦ absurd (ground arith)
  | inl (target, checks, (r1, cancelled1, operation_ids, e, names, effect)) ↦
      let same : r1 ≡ r' = ground arith in
      subst (λ x. Repeats x request) same
        (repeats r r1 request target operation_ids cancelled1 inv checks names effect)
]
