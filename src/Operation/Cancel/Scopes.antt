-- ===== src/Operation/Cancel/Scopes.antt =====
-- Which operations a cancel request is about, scope by scope.
use mathlib.Core.Option
use nnrp_rs.Base.{
  ℕ, ◌≡◌, ◌≢◌, refl, sym, subst, ap, ◌↔◌, Bool, true, List, [], ◌∷◌, Option, none, some, arith,
  ◌==◌, ==_iff, opt_eq, opt_eq-some, filter,
}
use nnrp_rs.Error.{ok}
use nnrp_rs.Enums.CancelScope.{CancelScope}
use nnrp_rs.Operation.{OperationRecord, OperationRegistry, operation}
use nnrp_rs.Operation.Invariant.{Inv}
use nnrp_rs.Operation.Cancel.{
  OperationCancelRequest, member, ids, records, scope_operation_ids, group_operation_ids,
  session_operation_ids,
}
use nnrp_rs.Operation.Cancel.Subtree.{subtree_operation_ids_total}
use nnrp_rs.Operation.Cancel.Descendants.{Descends, self, child, subtree_operation_ids_iff}
use nnrp_rs.Operation.Cancel.Targets.{Keyed, filtered_sound, filtered_complete, child_known}

-- The operation is one that the request is about.
abbrev pub IsTargeted :
    CancelScope
    → OperationRegistry
    → OperationCancelRequest
    → OperationRecord
    → ℕ
    → OperationRecord
    → Type 0
IsTargeted CancelScope.operation r request target k rec = k ≡ request.operation_id
IsTargeted CancelScope.subtree r request target k rec = Descends (records r) request.operation_id k
IsTargeted CancelScope.group r request target k rec =
    rec.descriptor.operation_group_id ≡ target.descriptor.operation_group_id
IsTargeted CancelScope.session r request target k rec =
    rec.descriptor.session_id ≡ request.session_id

-- The list names exactly the known operations that the request is about.
abbrev pub NamesTargets :
    OperationRegistry → OperationCancelRequest → OperationRecord → List ℕ → Type 0
NamesTargets r request target operation_ids =
    (k : ℕ)
    → (member k operation_ids ≡ true) ↔ (
        (rec : OperationRecord) × (operation r k ≡ some rec)
        × IsTargeted request.cancel_scope r request target k rec)

abbrev ScopeNames :
    CancelScope → OperationRegistry → OperationCancelRequest → OperationRecord → List ℕ → Type 0
ScopeNames scope r request target operation_ids =
    (k : ℕ)
    → (member k operation_ids ≡ true) ↔ (
        (rec : OperationRecord) × (operation r k ≡ some rec)
        × IsTargeted scope r request target k rec)

Inv-Keyed : (r : OperationRegistry) → Inv r → Keyed r.operations
Inv-Keyed r inv k rec e = (inv.placed k rec e).keyed

descendant_known :
    (r : OperationRegistry) (root k : ℕ) (target : OperationRecord)
    → Inv r
    → operation r root ≡ some target
    → Descends (records r) root k
    → (rec : OperationRecord) × (operation r k ≡ some rec)
descendant_known r root k target inv found (self e) =
    (target, subst (λ x. operation r x ≡ some target) (sym e) found)
descendant_known r root k target inv found (child {p} {k = k'} d c) =
    let (rec, e, _) = child_known 0 p k r.operations inv.ascends (Inv-Keyed r inv) c in (rec, e)

-- The identifiers of the records that pass a test.
filtered_iff :
    (r : OperationRegistry) (p : OperationRecord → Bool) (k : ℕ)
    → Inv r
    → (member k (ids (filter p (records r))) ≡ true)
      ↔ ((rec : OperationRecord) × (operation r k ≡ some rec) × (p rec ≡ true))
filtered_iff r p k inv = (
  filtered_sound p 0 k r.operations inv.ascends (Inv-Keyed r inv),
  λ (rec, known, h). filtered_complete p 0 k r.operations rec inv.ascends (Inv-Keyed r inv) known h,
)

group_operation_ids_lem :
    (r : OperationRegistry) (group : Option ℕ)
    → Inv r
    → group ≢ none
    → (operation_ids : List ℕ) × (group_operation_ids r group ≡ ok operation_ids)
      × ((k : ℕ)
          → (member k operation_ids ≡ true) ↔ (
              (rec : OperationRecord) × (operation r k ≡ some rec)
              × (rec.descriptor.operation_group_id ≡ group)))
unfolding group_operation_ids
group_operation_ids_lem r none inv grouped = absurd (grouped refl)
group_operation_ids_lem r (some group) inv grouped = (
  ids (filter (λ rec. opt_eq rec.descriptor.operation_group_id (some group)) (records r)),
  refl,
  λ k.
      let f = filtered_iff r (λ rec. opt_eq rec.descriptor.operation_group_id (some group)) k inv in
      (
        λ m. let (rec, known, h) = f.0 m in (rec, known, (opt_eq-some _ group).0 h),
        λ (rec, known, h). f.1 (rec, known, (opt_eq-some _ group).1 h),
      ),
)

pub scope_operation_ids_lem :
    (scope : CancelScope) (r : OperationRegistry) (request : OperationCancelRequest)
    (target : OperationRecord)
    → Inv r
    → operation r request.operation_id ≡ some target
    → (scope ≡ CancelScope.group → target.descriptor.operation_group_id ≢ none)
    → (operation_ids : List ℕ) × (scope_operation_ids scope r request target
        ≡ some (ok operation_ids))
      × ScopeNames scope r request target operation_ids
unfolding scope_operation_ids session_operation_ids member
scope_operation_ids_lem CancelScope.operation r request target inv found grouped = (
  request.operation_id ∷ [],
  refl,
  λ k. (
    λ m.
        let same : request.operation_id ≡ k = ground (arith, ==_iff request.operation_id k) in
        (target, subst (λ x. operation r x ≡ some target) same found, sym same),
    λ (rec, known, same). ground (arith, ==_iff request.operation_id k),
  ),
)
scope_operation_ids_lem CancelScope.subtree r request target inv found grouped =
    let (operation_ids, e) = subtree_operation_ids_total r request.operation_id in
    (
      operation_ids,
      ap (Option.map ok) e,
      λ k.
          let char = subtree_operation_ids_iff r request.operation_id k operation_ids e in
          (
            λ m.
                let d = char.0 m in
                let (rec, known) = descendant_known r request.operation_id k target inv found d in
                (rec, known, d),
            λ (rec, known, d). char.1 d,
          ),
    )
scope_operation_ids_lem CancelScope.group r request target inv found grouped =
    let (operation_ids, e, names) =
      group_operation_ids_lem r target.descriptor.operation_group_id inv (grouped refl) in
    (operation_ids, ap some e, names)
scope_operation_ids_lem CancelScope.session r request target inv found grouped = (
  session_operation_ids r request.session_id,
  refl,
  λ k.
      let f = filtered_iff r (λ rec. rec.descriptor.session_id == request.session_id) k inv in
      (
        λ m. let (rec, known, h) = f.0 m in (rec, known, (==_iff _ request.session_id).0 h),
        λ (rec, known, h). f.1 (rec, known, (==_iff _ request.session_id).1 h),
      ),
)
