-- ===== src/Operation/Cancel/Whole.antt =====
-- OperationRegistry::cancel: what it does with a request, on every branch.
use mathlib.Core.Option
use nnrp_rs.Base.{
  ℕ, ◌≡◌, ◌≢◌, refl, sym, ◌∙◌, ◌⊎◌, inl, inr, List, Option, none, some, arith, ◌==◌, Bool-cases,
  Option-cases, ==_iff,
}
use nnrp_rs.Error.{ok, err, NnrpError, unknown_operation, invalid_operation_relationship}
use nnrp_rs.Enums.CancelScope.{CancelScope}
use nnrp_rs.Operation.{OperationRecord, OperationRegistry, operation, Call}
use nnrp_rs.Operation.Invariant.{Inv}
use nnrp_rs.Operation.Cancel.{
  OperationCancelRequest, sort_unstable, cancel, check_cancel, cancel_collected,
  scope_operation_ids, group_operation_ids,
}
use nnrp_rs.Operation.Cancel.Effect.{Cancels, cancel_each_lem, member-sort_unstable}
use nnrp_rs.Operation.Cancel.Scopes.{NamesTargets, scope_operation_ids_lem}

check_cancel_ok :
    (r : OperationRegistry) (request : OperationCancelRequest) (target : OperationRecord)
    → operation r request.operation_id ≡ some target
    → target.descriptor.session_id ≡ request.session_id
    → check_cancel r request ≡ ok target
unfolding check_cancel
check_cancel_ok r request target found same = ground arith

-- A request that is carried out: the operations it is about are cancelled as far as they have not
-- ended, and the result names exactly those.
cancel_accepted :
    (r : OperationRegistry) (request : OperationCancelRequest) (target : OperationRecord)
    → Inv r
    → operation r request.operation_id ≡ some target
    → target.descriptor.session_id ≡ request.session_id
    → (request.cancel_scope ≡ CancelScope.group → target.descriptor.operation_group_id ≢ none)
    → (r' : OperationRegistry) × (cancelled operation_ids : List ℕ) × (cancel r request
        ≡ some (r', ok cancelled))
      × NamesTargets r request target operation_ids
      × Cancels r r' operation_ids cancelled
unfolding cancel cancel_collected
cancel_accepted r request target inv found same grouped =
    let (operation_ids, e, names) =
      scope_operation_ids_lem request.cancel_scope r request target inv found grouped in
    let sorted = sort_unstable operation_ids in
    let (r', cancelled, run, effect) = cancel_each_lem r sorted (λ k m.
      let (rec, known, _) = (names k).0 (sym (member-sort_unstable k operation_ids) ∙ m) in
      (rec, known)) in
    (
      r',
      cancelled,
      sorted,
      rw (check_cancel_ok r request target found same, cancel)
          (rw (e, cancel_collected) (rw (run, Option.map))),
      λ k. (
        λ m. (names k).0 (sym (member-sort_unstable k operation_ids) ∙ m),
        λ x. member-sort_unstable k operation_ids ∙ (names k).1 x,
      ),
      effect,
    )

-- The request names a known operation of its session, and one that is in a group if it cancels a
-- group.
pub record IsCancellable (r : OperationRegistry) (request : OperationCancelRequest)
    (target : OperationRecord) : Type 0 where
  pub found : operation r request.operation_id ≡ some target
  pub same_session : target.descriptor.session_id ≡ request.session_id
  pub grouped :
      request.cancel_scope ≡ CancelScope.group → target.descriptor.operation_group_id ≢ none

-- What `cancel` does with a request.
abbrev pub CancelOutcome :
    OperationRegistry → OperationCancelRequest → Option (Call (List ℕ)) → Type 0
CancelOutcome r request result =
    ((target : OperationRecord) × IsCancellable r request target
      × ((r' : OperationRegistry) × (cancelled operation_ids : List ℕ) × (result
            ≡ some (r', ok cancelled))
          × NamesTargets r request target operation_ids
          × Cancels r r' operation_ids cancelled))
    ⊎ (((target : OperationRecord) → ¬ IsCancellable r request target)
        × ((e : NnrpError) × (result ≡ some (r, err e))))

scope-cases : (scope : CancelScope) → (scope ≡ CancelScope.group) ⊎ (scope ≢ CancelScope.group)
scope-cases CancelScope.group = inl refl
scope-cases CancelScope.operation = inr (λ e. cc)
scope-cases CancelScope.subtree = inr (λ e. cc)
scope-cases CancelScope.session = inr (λ e. cc)

cancel_unknown :
    (r : OperationRegistry) (request : OperationCancelRequest)
    → operation r request.operation_id ≡ none
    → CancelOutcome r request (cancel r request)
unfolding cancel check_cancel
cancel_unknown r request gone =
    let refused : check_cancel r request ≡ err (unknown_operation request.operation_id) =
      ground arith in
    inr (
      (λ target c. ground (arith, c.found)),
      (unknown_operation request.operation_id, rw (refused, cancel) refl),
    )

cancel_foreign :
    (r : OperationRegistry) (request : OperationCancelRequest) (target : OperationRecord)
    → operation r request.operation_id ≡ some target
    → target.descriptor.session_id ≢ request.session_id
    → CancelOutcome r request (cancel r request)
unfolding cancel check_cancel
cancel_foreign r request target found other =
    let same = ==_iff target.descriptor.session_id request.session_id in
    let refusal =
      invalid_operation_relationship "cancel request session_id must match the target operation" in
    let refused : check_cancel r request ≡ err refusal = ground arith in
    inr (
      (λ other_target c. ground (arith, c.found, c.same_session)),
      (refusal, rw (refused, cancel) refl),
    )

cancel_ungrouped :
    (r : OperationRegistry) (request : OperationCancelRequest) (target : OperationRecord)
    → operation r request.operation_id ≡ some target
    → target.descriptor.session_id ≡ request.session_id
    → request.cancel_scope ≡ CancelScope.group
    → target.descriptor.operation_group_id ≡ none
    → CancelOutcome r request (cancel r request)
unfolding cancel cancel_collected scope_operation_ids group_operation_ids
cancel_ungrouped r request target found same scope none_group =
    let refusal =
      invalid_operation_relationship
        "group cancel requires the target operation to have an operation_group_id" in
    let refused : scope_operation_ids request.cancel_scope r request target ≡ some (err refusal) =
      ground arith in
    inr (
      (λ other_target c. ground (arith, c.found, c.grouped scope)),
      (
        refusal,
        rw (check_cancel_ok r request target found same, cancel)
            (rw (refused, cancel_collected) refl),
      ),
    )

-- On a registry that satisfies the invariant `cancel` does not panic. A request that names a known
-- operation of its session, and one in a group if it cancels a group, is carried out: the
-- operations that its scope is about (the one operation, the operation and all its descendants,
-- the members of its group, the operations of the session) are cancelled as far as they have not
-- ended, the result names exactly those, and all other operations stay as they are. Any other
-- request fails and changes nothing.
pub cancel_lem :
    (r : OperationRegistry) (request : OperationCancelRequest)
    → Inv r
    → CancelOutcome r request (cancel r request)
cancel_lem r request inv = elim (Option-cases (operation r request.operation_id)) [
  | inl gone ↦ cancel_unknown r request gone
  | inr (target, found) ↦ elim (Bool-cases (target.descriptor.session_id == request.session_id)) [
    | inl here ↦
        let same = (==_iff target.descriptor.session_id request.session_id).0 here in
        elim (Option-cases target.descriptor.operation_group_id) [
          | inl ungrouped ↦ elim (scope-cases request.cancel_scope) [
            | inl scope ↦ cancel_ungrouped r request target found same scope ungrouped
            | inr scope ↦ cancel_known r request target inv found same (λ s. absurd (scope s))
          ]
          | inr (group, grouped) ↦ cancel_known r request target inv found same (λ s. ground arith)
        ]
    | inr other ↦
        cancel_foreign r request target found
          (ground (arith, ==_iff target.descriptor.session_id request.session_id))
  ]
]
  where
    cancel_known :
        (r : OperationRegistry) (request : OperationCancelRequest) (target : OperationRecord)
        → Inv r
        → operation r request.operation_id ≡ some target
        → target.descriptor.session_id ≡ request.session_id
        → (request.cancel_scope ≡ CancelScope.group → target.descriptor.operation_group_id ≢ none)
        → CancelOutcome r request (cancel r request)
    cancel_known r request target inv found same grouped =
        let checks : IsCancellable r request target = record {
          found = found;
          same_session = same;
          grouped = grouped;
        } in
        inl (target, checks, cancel_accepted r request target inv found same grouped)
