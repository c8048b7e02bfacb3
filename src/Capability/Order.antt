-- ===== src/Capability/Order.antt =====
-- The order of byte strings, and sort_unstable_by on it: the sorted order of a list is one list,
-- since two strings that compare as equal are the same.
use nnrp_rs.Wire.Buffer.{bytes_eq}
use Prim.Native.Nat.Ordering.{lt, eq, gt}
use nnrp_rs.Base.{
  ℕ, suc, ◌≡◌, ◌≢◌, refl, ap, ◌∙◌, ◌⊎◌, inl, inr, compare, Ordering, Bool, true, false, List, [],
  ◌∷◌, arith, length, All, ◌||◌,
}

-- `cmp` of byte slices.
unfoldable pub bytes_cmp : List ℕ → List ℕ → Ordering
bytes_cmp [] [] = eq
bytes_cmp [] (b ∷ bs) = lt
bytes_cmp (a ∷ as') [] = gt
bytes_cmp (a ∷ as') (b ∷ bs) =
    let rest = bytes_cmp as' bs in elim (compare a b) [ lt ↦ lt | gt ↦ gt | eq ↦ rest ]

pub Ordering-cases : (o : Ordering) → (o ≡ lt) ⊎ ((o ≡ eq) ⊎ (o ≡ gt))
Ordering-cases lt = inl refl
Ordering-cases eq = inr (inl refl)
Ordering-cases gt = inr (inr refl)

-- `windows(2).any(|pair| pair[0] == pair[1])`.
unfoldable pub has_equal_pair : List (List ℕ) → Bool
has_equal_pair [] = false
has_equal_pair (a ∷ []) = false
has_equal_pair (a ∷ b ∷ xs) = bytes_eq a b || has_equal_pair (b ∷ xs)

unfoldable pub insert_by_bytes : List ℕ → List (List ℕ) → List (List ℕ)
insert_by_bytes x [] = x ∷ []
insert_by_bytes x (y ∷ ys) =
    let rest = insert_by_bytes x ys in elim (bytes_cmp x y) [ gt ↦ y ∷ rest | _ ↦ x ∷ y ∷ ys ]

unfoldable pub sort : List (List ℕ) → List (List ℕ)
unfolding insert_by_bytes
sort [] = []
sort (x ∷ xs) = insert_by_bytes x (sort xs)

abbrev pub Precedes : List ℕ → List ℕ → Type 0
Precedes x y = bytes_cmp x y ≡ lt

pub bytes_cmp-eq : (x y : List ℕ) → bytes_cmp x y ≡ eq → x ≡ y
unfolding bytes_cmp
bytes_cmp-eq [] [] h = refl
bytes_cmp-eq [] (b ∷ y) h = absurd (cc)
bytes_cmp-eq (a ∷ x) [] h = absurd (cc)
bytes_cmp-eq (a ∷ x) (b ∷ y) h = ground (arith, bytes_cmp-eq x y)

pub bytes_cmp_self : (x : List ℕ) → bytes_cmp x x ≡ eq
unfolding bytes_cmp
bytes_cmp_self [] = refl
bytes_cmp_self (a ∷ x) = ground (arith, bytes_cmp_self x)

pub bytes_cmp-gt : (x y : List ℕ) → bytes_cmp x y ≡ gt → Precedes y x
unfolding bytes_cmp
bytes_cmp-gt [] [] h = absurd (cc)
bytes_cmp-gt [] (b ∷ y) h = absurd (cc)
bytes_cmp-gt (a ∷ x) [] h = refl
bytes_cmp-gt (a ∷ x) (b ∷ y) h = ground (arith, bytes_cmp-gt x y)

pub Precedes-trans : (x y z : List ℕ) → Precedes x y → Precedes y z → Precedes x z
unfolding bytes_cmp
Precedes-trans [] y [] p q = ground arith
Precedes-trans [] y (c ∷ z) p q = refl
Precedes-trans (a ∷ x) [] z p q = absurd (cc)
Precedes-trans (a ∷ x) (b ∷ y) [] p q = absurd (cc)
Precedes-trans (a ∷ x) (b ∷ y) (c ∷ z) p q = ground (arith, Precedes-trans x y z)

-- Every string precedes the next.
abbrev pub IsAscending : List (List ℕ) → Type 0
IsAscending [] = Unit
IsAscending (x ∷ []) = Unit
IsAscending (x ∷ y ∷ xs) = Precedes x y × IsAscending (y ∷ xs)

insert_first :
    (x : List ℕ) (xs : List (List ℕ)) → IsAscending (x ∷ xs) → insert_by_bytes x xs ≡ x ∷ xs
unfolding insert_by_bytes
insert_first x [] up = refl
insert_first x (y ∷ xs) up = rw (up.0, insert_by_bytes) refl

tail-IsAscending : (x : List ℕ) (xs : List (List ℕ)) → IsAscending (x ∷ xs) → IsAscending xs
tail-IsAscending x [] up = tt
tail-IsAscending x (y ∷ xs) up = up.1

-- A list that ascends is sorted already.
pub sort-IsAscending : (xs : List (List ℕ)) → IsAscending xs → sort xs ≡ xs
unfolding sort
sort-IsAscending [] up = refl
sort-IsAscending (x ∷ xs) up =
    ap (insert_by_bytes x) (sort-IsAscending xs (tail-IsAscending x xs up)) ∙ insert_first x xs up

-- No string precedes the one before it.
abbrev IsWeak : List (List ℕ) → Type 0
IsWeak [] = Unit
IsWeak (x ∷ []) = Unit
IsWeak (x ∷ y ∷ xs) = (bytes_cmp x y ≢ gt) × IsWeak (y ∷ xs)

insert_behind :
    (y x : List ℕ) (xs : List (List ℕ))
    → bytes_cmp y x ≢ gt
    → IsWeak (y ∷ xs)
    → IsWeak (y ∷ insert_by_bytes x xs)
unfolding insert_by_bytes
insert_behind y x [] low weak = (low, tt)
insert_behind y x (z ∷ xs) low weak = elim (Ordering-cases (bytes_cmp x z)) [
  | inl less ↦ rw (less, insert_by_bytes) (low, ((λ e. cc), weak.1))
  | inr (inl same) ↦ rw (same, insert_by_bytes) (low, ((λ e. cc), weak.1))
  | inr (inr more) ↦
      let back = bytes_cmp-gt x z more in
      rw (more, insert_by_bytes) (weak.0, insert_behind z x xs (λ e. cc) weak.1)
]

insert-IsWeak : (x : List ℕ) (xs : List (List ℕ)) → IsWeak xs → IsWeak (insert_by_bytes x xs)
unfolding insert_by_bytes
insert-IsWeak x [] weak = tt
insert-IsWeak x (z ∷ xs) weak = elim (Ordering-cases (bytes_cmp x z)) [
  | inl less ↦ rw (less, insert_by_bytes) ((λ e. cc), weak)
  | inr (inl same) ↦ rw (same, insert_by_bytes) ((λ e. cc), weak)
  | inr (inr more) ↦
      let back = bytes_cmp-gt x z more in
      rw (more, insert_by_bytes) (insert_behind z x xs (λ e. cc) weak)
]

sort-IsWeak : (xs : List (List ℕ)) → IsWeak (sort xs)
unfolding sort
sort-IsWeak [] = tt
sort-IsWeak (x ∷ xs) = insert-IsWeak x (sort xs) (sort-IsWeak xs)

pub bytes_eq-cmp : (x y : List ℕ) → bytes_cmp x y ≡ eq → bytes_eq x y ≡ true
unfolding bytes_cmp bytes_eq
bytes_eq-cmp [] [] h = refl
bytes_eq-cmp [] (b ∷ y) h = absurd (cc)
bytes_eq-cmp (a ∷ x) [] h = absurd (cc)
bytes_eq-cmp (a ∷ x) (b ∷ y) h = ground (arith, bytes_eq-cmp x y)

pub bytes_eq-Precedes : (x y : List ℕ) → Precedes x y → bytes_eq x y ≡ false
unfolding bytes_cmp bytes_eq
bytes_eq-Precedes [] [] h = absurd (cc)
bytes_eq-Precedes [] (b ∷ y) h = refl
bytes_eq-Precedes (a ∷ x) [] h = refl
bytes_eq-Precedes (a ∷ x) (b ∷ y) h = ground (arith, bytes_eq-Precedes x y)

-- A list ascends exactly if it does not fall and no two neighbours are equal.
ascends-of_IsWeak : (xs : List (List ℕ)) → IsWeak xs → has_equal_pair xs ≡ false → IsAscending xs
unfolding has_equal_pair
ascends-of_IsWeak [] weak apart = tt
ascends-of_IsWeak (x ∷ []) weak apart = tt
ascends-of_IsWeak (x ∷ y ∷ xs) weak apart = elim (Ordering-cases (bytes_cmp x y)) [
  | inl less ↦ (less, ascends-of_IsWeak (y ∷ xs) weak.1 (ground arith))
  | inr (inl same) ↦ absurd (let e = bytes_eq-cmp x y same in ground arith)
  | inr (inr more) ↦ absurd (weak.0 more)
]

pub sort_ascends : (xs : List (List ℕ)) → has_equal_pair (sort xs) ≡ false → IsAscending (sort xs)
sort_ascends xs apart = ascends-of_IsWeak (sort xs) (sort-IsWeak xs) apart

pub has_equal_pair-IsAscending : (xs : List (List ℕ)) → IsAscending xs → has_equal_pair xs ≡ false
unfolding has_equal_pair
has_equal_pair-IsAscending [] up = refl
has_equal_pair-IsAscending (x ∷ []) up = refl
has_equal_pair-IsAscending (x ∷ y ∷ xs) up =
    ground (arith, bytes_eq-Precedes x y, has_equal_pair-IsAscending (y ∷ xs) up.1)

module _ (P : List ℕ → Type 0) where
  All-insert : (x : List ℕ) (xs : List (List ℕ)) → P x → All P xs → All P (insert_by_bytes x xs)
  unfolding insert_by_bytes
  All-insert x [] p ps = (p, tt)
  All-insert x (y ∷ xs) p ps = elim (Ordering-cases (bytes_cmp x y)) [
    | inl less ↦ rw (less, insert_by_bytes) (p, ps)
    | inr (inl same) ↦ rw (same, insert_by_bytes) (p, ps)
    | inr (inr more) ↦ rw (more, insert_by_bytes) (ps.0, All-insert x xs p ps.1)
  ]

  pub All-sort : (xs : List (List ℕ)) → All P xs → All P (sort xs)
  unfolding sort
  All-sort [] ps = tt
  All-sort (x ∷ xs) ps = All-insert x (sort xs) ps.0 (All-sort xs ps.1)

length-insert : (x : List ℕ) (xs : List (List ℕ)) → length (insert_by_bytes x xs) ≡ suc (length xs)
unfolding insert_by_bytes
length-insert x [] = refl
length-insert x (y ∷ xs) = ground (arith, length-insert x xs)

pub length-sort : (xs : List (List ℕ)) → length (sort xs) ≡ length xs
unfolding sort
length-sort [] = refl
length-sort (x ∷ xs) = length-insert x (sort xs) ∙ ap suc (length-sort xs)
