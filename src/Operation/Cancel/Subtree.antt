-- ===== src/Operation/Cancel/Subtree.antt =====
-- The search for the operations below one ends.
use nnrp_rs.Base.{
  ℕ, zero, suc, ◌+◌, ◌≤◌, ◌<◌, ◌≡◌, refl, inl, inr, true, false, List, [], ◌∷◌, Option, none, some,
  arith, if◌then◌else◌, ◌==◌, length, opt_eq, Bool-cases, ==_iff,
}
use nnrp_rs.Operation.{OperationRecord, OperationRegistry}
use nnrp_rs.Operation.Cancel.{
  member, insert_sorted, push_children, collect_subtree, records, subtree_operation_ids,
}

pub member-insert_sorted :
    (j a : ℕ) (xs : List ℕ) → member j (insert_sorted a xs) ≡ (if a == j then true else member j xs)
unfolding member insert_sorted
member-insert_sorted j a [] = refl
member-insert_sorted j a (x ∷ xs) = ground (arith, member-insert_sorted j a xs)

-- The record waits for its parent to be collected.
waits : Option ℕ → List ℕ → ℕ
waits none collected = 0
waits (some p) collected = if member p collected then 0 else 1

pending : List OperationRecord → List ℕ → ℕ
pending [] collected = 0
pending (rec ∷ recs) collected =
    waits rec.descriptor.parent_operation_id collected + pending recs collected

pending-le :
    (recs : List OperationRecord) (collected : List ℕ) → pending recs collected ≤ length recs
unfolding pending waits
pending-le [] collected = omega arith
pending-le (rec ∷ recs) collected = ground (arith, pending-le recs collected)

waits_step :
    (parent : Option ℕ) (id : ℕ) (collected : List ℕ)
    → member id collected ≡ false
    → (if opt_eq parent (some id) then 1 else 0) + waits parent (insert_sorted id collected)
      ≡ waits parent collected
unfolding waits
waits_step none id collected h = ground arith
waits_step (some p) id collected h =
    ground (arith, member-insert_sorted p id collected, ==_iff p id)

-- What goes on the stack no longer waits.
length-push_children :
    (recs : List OperationRecord) (id : ℕ) (stack collected : List ℕ)
    → member id collected ≡ false
    → length (push_children recs id stack) + pending recs (insert_sorted id collected)
      ≡ length stack + pending recs collected
unfolding push_children pending
length-push_children [] id stack collected h = omega arith
length-push_children (rec ∷ recs) id stack collected h =
    let w = waits_step rec.descriptor.parent_operation_id id collected h in
    elim (Bool-cases (opt_eq rec.descriptor.parent_operation_id (some id))) [
      | inl e ↦
          let w' = rw e at w in
          rw e (
            omega (
              arith,
              w',
              length-push_children recs id (rec.descriptor.operation_id ∷ stack) collected h,
            ))
      | inr e ↦
          let w' = rw e at w in
          rw e (omega (arith, w', length-push_children recs id stack collected h))
    ]

-- With fuel above the length of the stack and the number of waiting records the search ends.
collect_subtree_total :
    (fuel : ℕ) (recs : List OperationRecord) (stack collected : List ℕ)
    → length stack + pending recs collected < fuel
    → (found : List ℕ) × (collect_subtree fuel recs stack collected ≡ some found)
unfolding collect_subtree
collect_subtree_total zero recs stack collected h = absurd (omega arith)
collect_subtree_total (suc fuel) recs [] collected h = (collected, refl)
collect_subtree_total (suc fuel) recs (id ∷ stack) collected h =
    elim (Bool-cases (member id collected)) [
      | inl old ↦
          rw (old, collect_subtree) (collect_subtree_total fuel recs stack collected (omega arith))
      | inr new ↦
          rw (new, collect_subtree)
            (collect_subtree_total fuel recs (push_children recs id stack)
              (insert_sorted id collected)
              (omega (arith, length-push_children recs id stack collected new)))
    ]

-- `subtree_operation_ids` has fuel enough for every registry.
pub subtree_operation_ids_total :
    (r : OperationRegistry) (root : ℕ)
    → (found : List ℕ) × (subtree_operation_ids r root ≡ some found)
unfolding subtree_operation_ids
subtree_operation_ids_total r root =
    collect_subtree_total _ (records r) (root ∷ []) [] (omega (arith, pending-le (records r) []))
