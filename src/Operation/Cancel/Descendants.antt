-- ===== src/Operation/Cancel/Descendants.antt =====
-- The search for the operations below one finds exactly these.
use nnrp_rs.Base.{
  ℕ, zero, suc, ◌≡◌, sym, subst, ◌↔◌, ◌⊎◌, inl, inr, true, List, [], ◌∷◌, some, arith, ◌==◌,
  opt_eq-some, Bool-cases, ==_iff,
}
use nnrp_rs.Operation.{OperationRecord, OperationRegistry}
use nnrp_rs.Operation.Cancel.{
  member, insert_sorted, push_children, collect_subtree, records, subtree_operation_ids,
}
use nnrp_rs.Operation.Cancel.Subtree.{member-insert_sorted, subtree_operation_ids_total}

-- One of the records has the identifier, and names the other as its parent.
abbrev pub IsChild : List OperationRecord → ℕ → ℕ → Type 0
IsChild [] p k = ⊥
IsChild (rec ∷ recs) p k =
    ((rec.descriptor.parent_operation_id ≡ some p) × (rec.descriptor.operation_id ≡ k))
    ⊎ IsChild recs p k

-- The root, its children, their children and so on.
pub data Descends (recs : List OperationRecord) (root : ℕ) : ℕ → Type 0 where
  self : {k : ℕ} → k ≡ root → Descends recs root k
  child : {p k : ℕ} → Descends recs root p → IsChild recs p k → Descends recs root k

push_children-old :
    (recs : List OperationRecord) (id k : ℕ) (stack : List ℕ)
    → member k stack ≡ true
    → member k (push_children recs id stack) ≡ true
unfolding push_children member
push_children-old [] id k stack h = h
push_children-old (rec ∷ recs) id k stack h = push_children-old recs id k _ (ground arith)

push_children-new :
    (recs : List OperationRecord) (id k : ℕ) (stack : List ℕ)
    → IsChild recs id k
    → member k (push_children recs id stack) ≡ true
unfolding push_children member
push_children-new [] id k stack h = absurd h
push_children-new (rec ∷ recs) id k stack (inl (p, e)) =
    push_children-old recs id k _ (rw (p, e) (ground arith))
push_children-new (rec ∷ recs) id k stack (inr c) = push_children-new recs id k _ c

push_children-only :
    (recs : List OperationRecord) (id k : ℕ) (stack : List ℕ)
    → member k (push_children recs id stack) ≡ true
    → IsChild recs id k ⊎ (member k stack ≡ true)
unfolding push_children member
push_children-only [] id k stack h = inr h
push_children-only (rec ∷ recs) id k stack h = elim (push_children-only recs id k _ h) [
  | inl c ↦ inl (inr c)
  | inr m ↦ ground (arith, opt_eq-some rec.descriptor.parent_operation_id id)
]

-- Every identifier in the list descends from the root.
abbrev AllDescend : List OperationRecord → ℕ → List ℕ → Type 0
AllDescend recs root ks = (k : ℕ) → member k ks ≡ true → Descends recs root k

-- The children of the collected operations are collected or on the stack.
abbrev ChildrenSeen : List OperationRecord → List ℕ → List ℕ → Type 0
ChildrenSeen recs stack collected =
    (p k : ℕ)
    → member p collected ≡ true
    → IsChild recs p k
    → (member k collected ≡ true) ⊎ (member k stack ≡ true)

push_children-AllDescend :
    (recs : List OperationRecord) (root id : ℕ) (stack : List ℕ)
    → AllDescend recs root (id ∷ stack)
    → AllDescend recs root (push_children recs id stack)
unfolding member
push_children-AllDescend recs root id stack h k m = elim (push_children-only recs id k stack m) [
  | inl c ↦ child (h id (ground arith)) c
  | inr old ↦ h k (ground arith)
]

insert-AllDescend :
    (recs : List OperationRecord) (root id : ℕ) (collected : List ℕ)
    → Descends recs root id
    → AllDescend recs root collected
    → AllDescend recs root (insert_sorted id collected)
insert-AllDescend recs root id collected d h k m = elim (Bool-cases (id == k)) [
  | inl hit ↦ subst (Descends recs root) ((==_iff id k).0 hit) d
  | inr miss ↦ h k (ground (arith, member-insert_sorted k id collected))
]

insert-ChildrenSeen :
    (recs : List OperationRecord) (id : ℕ) (stack collected : List ℕ)
    → ChildrenSeen recs (id ∷ stack) collected
    → ChildrenSeen recs (push_children recs id stack) (insert_sorted id collected)
unfolding member
insert-ChildrenSeen recs id stack collected seen p k m c = elim (Bool-cases (id == p)) [
  | inl hit ↦ inr (
      push_children-new recs id k stack
        (subst (λ x. IsChild recs x k) (sym ((==_iff id p).0 hit)) c))
  | inr miss ↦
      let old : member p collected ≡ true = ground (arith, member-insert_sorted p id collected) in
      elim (seen p k old c) [
        | inl there ↦ inl (ground (arith, member-insert_sorted k id collected))
        | inr waiting ↦ elim (Bool-cases (id == k)) [
          | inl this ↦ inl (ground (arith, member-insert_sorted k id collected))
          | inr other ↦ inr (push_children-old recs id k stack (ground arith))
        ]
      ]
]

collect_subtree_sound :
    (fuel : ℕ) (recs : List OperationRecord) (root : ℕ) (stack collected found : List ℕ)
    → AllDescend recs root stack
    → AllDescend recs root collected
    → collect_subtree fuel recs stack collected ≡ some found
    → AllDescend recs root found
unfolding collect_subtree member
collect_subtree_sound zero recs root stack collected found a b e = absurd (cc)
collect_subtree_sound (suc fuel) recs root [] collected found a b e =
    let same : collected ≡ found = ground arith in subst (AllDescend recs root) same b
collect_subtree_sound (suc fuel) recs root (id ∷ stack) collected found a b e =
    elim (Bool-cases (member id collected)) [
      | inl old ↦
          collect_subtree_sound fuel recs root stack collected found (λ k m. a k (ground arith)) b
            (ground arith)
      | inr new ↦
          collect_subtree_sound fuel recs root (push_children recs id stack)
            (insert_sorted id collected) found (push_children-AllDescend recs root id stack a)
            (insert-AllDescend recs root id collected (a id (ground arith)) b) (ground arith)
    ]

seen_before :
    (id k : ℕ) (stack collected : List ℕ) (recs : List OperationRecord)
    → (member k collected ≡ true) ⊎ (member k (id ∷ stack) ≡ true)
    → (member k (insert_sorted id collected) ≡ true)
      ⊎ (member k (push_children recs id stack) ≡ true)
unfolding member
seen_before id k stack collected recs m =
    ground (arith, member-insert_sorted k id collected, push_children-old recs id k stack)

collect_subtree_complete :
    (fuel : ℕ) (recs : List OperationRecord) (stack collected found : List ℕ)
    → ChildrenSeen recs stack collected
    → collect_subtree fuel recs stack collected ≡ some found
    → ChildrenSeen recs [] found
      × ((k : ℕ) → (member k collected ≡ true) ⊎ (member k stack ≡ true) → member k found ≡ true)
unfolding collect_subtree member
collect_subtree_complete zero recs stack collected found seen e = absurd (cc)
collect_subtree_complete (suc fuel) recs [] collected found seen e =
    let same : collected ≡ found = ground arith in
    (subst (ChildrenSeen recs []) same seen, λ k m. ground arith)
collect_subtree_complete (suc fuel) recs (id ∷ stack) collected found seen e =
    elim (Bool-cases (member id collected)) [
      | inl old ↦
          let (closed, kept) =
            collect_subtree_complete fuel recs stack collected found
              (λ p k m c. ground (arith, seen p k m c, ==_iff id k)) (ground arith) in
          (closed, λ k m. kept k (ground (arith, ==_iff id k)))
      | inr new ↦
          let (closed, kept) =
            collect_subtree_complete fuel recs (push_children recs id stack)
              (insert_sorted id collected) found (insert-ChildrenSeen recs id stack collected seen)
              (ground arith) in
          (closed, λ k m. kept k (seen_before id k stack collected recs m))
    ]

Descends-member :
    (recs : List OperationRecord) (root k : ℕ) (found : List ℕ)
    → member root found ≡ true
    → ChildrenSeen recs [] found
    → Descends recs root k
    → member k found ≡ true
unfolding member
Descends-member recs root k found r closed (self e) = subst (λ x. member x found ≡ true) (sym e) r
Descends-member recs root k found r closed (child {p} {k = k'} d c) =
    elim (closed p k (Descends-member recs root p found r closed d) c) [
      | inl there ↦ there
      | inr none_left ↦ absurd (ground arith)
    ]

pub subtree_operation_ids_iff :
    (r : OperationRegistry) (root k : ℕ) (found : List ℕ)
    → subtree_operation_ids r root ≡ some found
    → (member k found ≡ true) ↔ Descends (records r) root k
unfolding subtree_operation_ids member
subtree_operation_ids_iff r root k found e = (
  collect_subtree_sound _ (records r) root (root ∷ []) [] found
      (λ j m. self (ground (arith, ==_iff root j))) (λ j m. absurd (ground arith)) e k,
  λ d.
      let (closed, kept) =
        collect_subtree_complete _ (records r) (root ∷ []) [] found
          (λ p j m c. absurd (ground arith)) e in
      Descends-member (records r) root k found (kept root (ground (arith, ==_iff root root))) closed
        d,
)

-- `subtree_operation_ids` ends on every registry, on one with a cycle of parents too, and gives the
-- root and all its descendants and nothing else.
pub subtree_operation_ids_lem :
    (r : OperationRegistry) (root : ℕ)
    → (found : List ℕ) × (subtree_operation_ids r root ≡ some found)
      × ((k : ℕ) → (member k found ≡ true) ↔ Descends (records r) root k)
subtree_operation_ids_lem r root =
    let (found, e) = subtree_operation_ids_total r root in
    (found, e, λ k. subtree_operation_ids_iff r root k found e)
