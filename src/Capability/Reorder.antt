-- ===== src/Capability/Reorder.antt =====
-- The sorted order of byte strings does not depend on the order in which they came.
use mathlib.Core.List.{Permᴰ}
use nnrp_rs.Capability.Order.{
  bytes_cmp, sort, insert_by_bytes, Precedes, Precedes-trans, bytes_cmp-eq, bytes_cmp-gt,
  Ordering-cases,
}
use Prim.Native.Nat.Ordering.{lt, gt}
use nnrp_rs.Base.{ℕ, ◌≡◌, refl, sym, ap₂, ◌∙◌, subst, ◌⊎◌, inl, inr, List, [], ◌∷◌, arith}

pub bytes_cmp-lt : (x y : List ℕ) → Precedes x y → bytes_cmp y x ≡ gt
unfolding bytes_cmp
bytes_cmp-lt [] [] h = absurd (cc)
bytes_cmp-lt [] (b ∷ y) h = refl
bytes_cmp-lt (a ∷ x) [] h = absurd (cc)
bytes_cmp-lt (a ∷ x) (b ∷ y) h = ground (arith, bytes_cmp-lt x y)

-- One of two strings comes first, or they are the same.
compare_cases :
    (x y : List ℕ)
    → ((bytes_cmp x y ≡ lt) × (bytes_cmp y x ≡ gt))
      ⊎ ((x ≡ y) ⊎ ((bytes_cmp x y ≡ gt) × (bytes_cmp y x ≡ lt)))
compare_cases x y = elim (Ordering-cases (bytes_cmp x y)) [
  | inl less ↦ inl (less, bytes_cmp-lt x y less)
  | inr (inl same) ↦ inr (inl (bytes_cmp-eq x y same))
  | inr (inr more) ↦ inr (inr (more, bytes_cmp-gt x y more))
]

-- `x` comes first of two strings that are inserted.
insert_before :
    (x y : List ℕ) (zs : List (List ℕ))
    → bytes_cmp x y ≡ lt
    → bytes_cmp y x ≡ gt
    → insert_by_bytes x (insert_by_bytes y zs) ≡ insert_by_bytes y (insert_by_bytes x zs)
unfolding insert_by_bytes
insert_before x y [] less more = rw (less, more, insert_by_bytes) refl
insert_before x y (z ∷ zs) less more =
    let ih = insert_before x y zs less more in
    elim (Ordering-cases (bytes_cmp y z)) [
      | inl yz ↦ let xz = Precedes-trans x y z less yz in ground arith
      | inr (inl yz) ↦
          let same = bytes_cmp-eq y z yz in
          let xz : bytes_cmp x z ≡ lt = subst (λ w. bytes_cmp x w ≡ lt) same less in ground arith
      | inr (inr yz) ↦ ground arith
    ]

insert_comm :
    (x y : List ℕ) (zs : List (List ℕ))
    → insert_by_bytes x (insert_by_bytes y zs) ≡ insert_by_bytes y (insert_by_bytes x zs)
insert_comm x y zs = elim (compare_cases x y) [
  | inl (less, more) ↦ insert_before x y zs less more
  | inr (inl same) ↦ rw same refl
  | inr (inr (more, less)) ↦ sym (insert_before y x zs less more)
]

-- The order in which the strings came does not show in the sorted list.
pub sort-perm : (xs ys : List (List ℕ)) → Permᴰ xs ys → sort xs ≡ sort ys
unfolding sort
sort-perm xs ys Permᴰ.nil = refl
sort-perm xs ys (Permᴰ.cons {a} {b} {l₁} {l₂} same p) = ap₂ insert_by_bytes same (sort-perm l₁ l₂ p)
sort-perm xs ys (Permᴰ.swap {a} {b} {a'} {b'} {l} first second) =
    insert_comm a b (sort l)
    ∙ ap₂ (λ (v w : List ℕ). insert_by_bytes v (insert_by_bytes w (sort l))) second first
sort-perm xs ys (Permᴰ.trans {l₂ = zs} p q) = sort-perm xs zs p ∙ sort-perm zs ys q
