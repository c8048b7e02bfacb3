-- ===== src/Operation/Registration.antt =====
-- OperationRegistry::register: when it adds an operation, and that it keeps the invariant.
use nnrp_rs.Base.{
  ℕ, suc, ◌<◌, ◌≡◌, ◌≢◌, refl, sym, subst, ap, ◌⊎◌, ◌↔◌, inl, inr, Option, none, some, arith,
  if◌then◌else◌, ◌==◌, Bool-cases, Option-cases, opt_eq-some,
}
use nnrp_rs.Base.Dict.{insert, Above-insert, get-insert, contains_key_iff}
use nnrp_rs.Error.{NnrpError, ok, err, Result-cases}
use nnrp_rs.Operation.{
  OperationRecord, OperationRegistry, OperationDescriptor, operation, register, accepted_record,
  check_parent, check_registrable, validate_descriptor_shape,
}
use nnrp_rs.Operation.Invariant.{Inv, IsPlaced, HasParent}

-- What `register` asks of a descriptor.
pub record IsRegistrable (r : OperationRegistry) (d : OperationDescriptor) : Type 0 where
  pub session_non_zero : d.session_id ≢ 0
  pub operation_non_zero : d.operation_id ≢ 0
  pub other_parent : d.parent_operation_id ≢ some d.operation_id
  pub group_non_zero : d.operation_group_id ≢ some 0
  pub fresh : operation r d.operation_id ≡ none
  pub parented :
      (p : ℕ)
      → d.parent_operation_id ≡ some p
      → (parent : OperationRecord) × (operation r p ≡ some parent)
        × (parent.descriptor.session_id ≡ d.session_id)

abbrev pub with_operation : OperationRegistry → OperationDescriptor → OperationRegistry
with_operation r d = record { operations = insert d.operation_id (accepted_record d) r.operations }

validate_descriptor_shape_iff :
    (d : OperationDescriptor)
    → (validate_descriptor_shape d ≡ ok tt) ↔ (
        (d.session_id ≢ 0)
        × (d.operation_id ≢ 0)
        × (d.parent_operation_id ≢ some d.operation_id)
        × (d.operation_group_id ≢ some 0))
unfolding validate_descriptor_shape
validate_descriptor_shape_iff d =
    let p = opt_eq-some d.parent_operation_id d.operation_id in
    let g = opt_eq-some d.operation_group_id 0 in (λ e. ground arith, λ e. ground arith)

check_parent_iff :
    (r : OperationRegistry) (d : OperationDescriptor) (parent : Option ℕ)
    → (check_parent r d parent ≡ ok tt) ↔ (
        (p : ℕ)
        → parent ≡ some p
        → (rec : OperationRecord) × (operation r p ≡ some rec)
          × (rec.descriptor.session_id ≡ d.session_id))
unfolding check_parent
check_parent_iff r d none = (λ e p h. absurd (cc), λ h. refl)
check_parent_iff r d (some q) = (
  λ e p h. elim (Option-cases (operation r q)) [
    | inl gone ↦ absurd (ground arith)
    | inr (rec, found) ↦ (rec, ground arith, ground arith)
  ],
  λ h. let (rec, found, same) = h q refl in ground arith,
)

check_registrable_sound :
    (r : OperationRegistry) (d : OperationDescriptor)
    → check_registrable r d ≡ ok tt
    → IsRegistrable r d
unfolding check_registrable
check_registrable_sound r d e =
    let key = contains_key_iff d.operation_id r.operations in
    let shape = (validate_descriptor_shape_iff d).0 (ground arith) in
    record {
      session_non_zero = shape.0;
      operation_non_zero = shape.1;
      other_parent = shape.2;
      group_non_zero = shape.3;
      fresh = ground arith;
      parented = (check_parent_iff r d d.parent_operation_id).0 (ground arith);
    }

check_registrable_complete :
    (r : OperationRegistry) (d : OperationDescriptor)
    → IsRegistrable r d
    → check_registrable r d ≡ ok tt
unfolding check_registrable
check_registrable_complete r d q =
    let key = contains_key_iff d.operation_id r.operations in
    let shape =
      (validate_descriptor_shape_iff d).1
        (q.session_non_zero, q.operation_non_zero, q.other_parent, q.group_non_zero) in
    let parent = (check_parent_iff r d d.parent_operation_id).1 q.parented in ground arith

-- `register` succeeds exactly on a registrable descriptor, and then adds an accepted operation;
-- otherwise it fails and changes nothing.
pub register_lem :
    (r : OperationRegistry) (d : OperationDescriptor)
    → (IsRegistrable r d × (register r d ≡ (with_operation r d, ok tt)))
      ⊎ ((¬ IsRegistrable r d) × ((e : NnrpError) × (register r d ≡ (r, err e))))
unfolding register
register_lem r d = elim (Result-cases (check_registrable r d)) [
  | inl (u, e) ↦ inl (check_registrable_sound r d e, rw (e, register))
  | inr (x, e) ↦
      inr ((λ q. absurd (ground (arith, check_registrable_complete r d q))), (x, rw (e, register)))
]

rank_above : (ℕ → ℕ) → Option ℕ → ℕ
rank_above rank none = 0
rank_above rank (some p) = suc (rank p)

-- The new operation ranks above its parent.
rank_with : (ℕ → ℕ) → OperationDescriptor → ℕ → ℕ
rank_with rank d k = if d.operation_id == k then rank_above rank d.parent_operation_id else rank k

rank_with_new :
    (rank : ℕ → ℕ) (d : OperationDescriptor) (p : ℕ)
    → d.parent_operation_id ≡ some p
    → rank p < rank_with rank d d.operation_id
unfolding rank_with rank_above
rank_with_new rank d p h = ground arith

rank_with_old :
    (rank : ℕ → ℕ) (d : OperationDescriptor) (rec : OperationRecord) (p : ℕ)
    → d.operation_id ≢ rec.descriptor.operation_id
    → rank p < rank rec.descriptor.operation_id
    → rank p < rank_with rank d rec.descriptor.operation_id
unfolding rank_with
rank_with_old rank d rec p other lower = ground arith

with_operation-HasParent :
    (r : OperationRegistry) (d : OperationDescriptor) (rank : ℕ → ℕ) (rec : OperationRecord) (p : ℕ)
    → operation r d.operation_id ≡ none
    → (parent : OperationRecord) → operation r p ≡ some parent
    → parent.descriptor.session_id ≡ rec.descriptor.session_id
    → rank p < rank_with rank d rec.descriptor.operation_id
    → HasParent (with_operation r d) (rank_with rank d) rec p
unfolding rank_with
with_operation-HasParent r d rank rec p fresh parent found same lower =
    let g = get-insert p d.operation_id (accepted_record d) r.operations in
    elim (Bool-cases (d.operation_id == p)) [
      | inl hit ↦ absurd (ground arith)
      | inr miss ↦ record {
        parent = parent;
        known = ground arith;
        same_session = same;
        lower = ground arith;
      }
    ]

with_operation-Inv :
    (r : OperationRegistry) (d : OperationDescriptor)
    → IsRegistrable r d
    → Inv r
    → Inv (with_operation r d)
unfolding accepted_record
with_operation-Inv r d q inv = record {
  ascends =
      Above-insert 0 d.operation_id (accepted_record d) r.operations (omega arith) inv.ascends;
  rank = rank_with inv.rank d;
  placed = λ k rec e.
      let g = get-insert k d.operation_id (accepted_record d) r.operations in
      elim (Bool-cases (d.operation_id == k)) [
        | inl hit ↦
            let is_new : rec ≡ accepted_record d = ground arith in
            record {
              keyed = ground arith;
              operation_non_zero = ground (arith, q.operation_non_zero);
              session_non_zero = ground (arith, q.session_non_zero);
              group_non_zero = ground (arith, q.group_non_zero);
              parented = λ p h.
                  let h' : d.parent_operation_id ≡ some p = ground arith in
                  let (parent, known, same) = q.parented p h' in
                  subst (λ x. HasParent (with_operation r d) (rank_with inv.rank d) x p)
                    (sym is_new)
                    (with_operation-HasParent r d inv.rank (accepted_record d) p q.fresh parent
                      known same (rank_with_new inv.rank d p h'));
            }
        | inr miss ↦
            let found : operation r k ≡ some rec = ground arith in
            let old : IsPlaced r inv.rank k rec = inv.placed k rec found in
            record {
              keyed = old.keyed;
              operation_non_zero = old.operation_non_zero;
              session_non_zero = old.session_non_zero;
              group_non_zero = old.group_non_zero;
              parented = λ p h.
                  let parent = old.parented p h in
                  with_operation-HasParent r d inv.rank rec p q.fresh parent.parent parent.known
                    parent.same_session
                    (rank_with_old inv.rank d rec p (ground arith) parent.lower);
            }
      ];
}

pub register-Inv : (r : OperationRegistry) (d : OperationDescriptor) → Inv r → Inv (register r d).0
register-Inv r d inv = elim (register_lem r d) [
  | inl (q, e) ↦ subst Inv (ap (λ x. x.0) (sym e)) (with_operation-Inv r d q inv)
  | inr (_, (x, e)) ↦ subst Inv (ap (λ x. x.0) (sym e)) inv
]
