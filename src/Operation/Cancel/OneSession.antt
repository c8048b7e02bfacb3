-- ===== src/Operation/Cancel/OneSession.antt =====
-- The sessions of the operations that a cancel request names. A group may reach into other sessions:
-- `register` does not tie a group to one.
use nnrp_rs.Base.{ℕ, ◌≡◌, ◌≢◌, refl, sym, subst, ap, ◌∙◌, inl, inr, true, List, some, arith}
use nnrp_rs.Error.{ok}
use nnrp_rs.Enums.CancelScope.{CancelScope}
use nnrp_rs.Operation.{OperationRecord, OperationRegistry, operation}
use nnrp_rs.Operation.Invariant.{Inv, HasParent}
use nnrp_rs.Operation.Cancel.{OperationCancelRequest, member, records, cancel}
use nnrp_rs.Operation.Cancel.Descendants.{Descends, self, child}
use nnrp_rs.Operation.Cancel.Targets.{child_known}
use nnrp_rs.Operation.Cancel.Scopes.{IsTargeted}
use nnrp_rs.Operation.Cancel.Whole.{cancel_lem}

-- The operation is known and belongs to the session.
abbrev IsOf : OperationRegistry → ℕ → ℕ → Type 0
IsOf r session_id k =
    (rec : OperationRecord) × (operation r k ≡ some rec) × (rec.descriptor.session_id ≡ session_id)

-- Parents are in the session of their children, so a subtree is in the session of its root.
descendant_same_session :
    (r : OperationRegistry) (session_id root k : ℕ)
    → Inv r
    → IsOf r session_id root
    → Descends (records r) root k
    → IsOf r session_id k
descendant_same_session r session_id root k inv of_root (self e) =
    subst (IsOf r session_id) (sym e) of_root
descendant_same_session r session_id root k inv of_root (child {p} {k = k'} d c) =
    let (above, known, same) = descendant_same_session r session_id root p inv of_root d in
    let (rec, found, named) =
      child_known 0 p k r.operations inv.ascends (λ j v e. (inv.placed j v e).keyed) c in
    let h : HasParent r inv.rank rec p = (inv.placed k rec found).parented p named in
    let parent : h.parent ≡ above = ground (arith, h.known) in
    (rec, found, sym h.same_session ∙ ap (λ x. x.descriptor.session_id) parent ∙ same)

targeted_same_session :
    (scope : CancelScope) (r : OperationRegistry) (request : OperationCancelRequest)
    (target rec : OperationRecord) (k : ℕ)
    → Inv r
    → scope ≢ CancelScope.group
    → operation r request.operation_id ≡ some target
    → target.descriptor.session_id ≡ request.session_id
    → operation r k ≡ some rec
    → IsTargeted scope r request target k rec
    → rec.descriptor.session_id ≡ request.session_id
targeted_same_session CancelScope.operation r request target rec k inv other found same known
      aimed =
    ground arith
targeted_same_session CancelScope.subtree r request target rec k inv other found same known aimed =
    let (rec', known', same') =
      descendant_same_session r request.session_id request.operation_id k inv (target, found, same)
        aimed in
    ground arith
targeted_same_session CancelScope.group r request target rec k inv other found same known aimed =
    absurd (other refl)
targeted_same_session CancelScope.session r request target rec k inv other found same known aimed =
    aimed

-- On a registry that satisfies the invariant, a request that cancels an operation, a subtree or a
-- session cancels operations of its own session only.
pub cancel_stays_in_session :
    (r r' : OperationRegistry) (request : OperationCancelRequest) (cancelled : List ℕ) (k : ℕ)
    (rec : OperationRecord)
    → Inv r
    → request.cancel_scope ≢ CancelScope.group
    → cancel r request ≡ some (r', ok cancelled)
    → member k cancelled ≡ true
    → operation r k ≡ some rec
    → rec.descriptor.session_id ≡ request.session_id
cancel_stays_in_session r r' request cancelled k rec inv other run named known =
    elim (cancel_lem r request inv) [
      | inr (_, (x, failed)) ↦ absurd (ground arith)
      | inl (target, checks, (r'', cancelled', operation_ids, e, names, effect)) ↦
          let same : cancelled' ≡ cancelled = ground arith in
          let aimed_at : member k operation_ids ≡ true = ground (arith, effect.named k) in
          let (rec', known', aimed) = (names k).0 aimed_at in
          let same_record : rec' ≡ rec = ground arith in
          subst (λ x. x.descriptor.session_id ≡ request.session_id) same_record
            (targeted_same_session request.cancel_scope r request target rec' k inv other
              checks.found checks.same_session known' aimed)
    ]
