-- ===== src/Wire/Little.antt =====
-- Little endian integers: to_le_bytes and from_le_bytes.
use native.Mathlib.Nat.{pow-suc}
use nnrp_rs.Base.{
  ℕ, zero, suc, ◌+◌, ◌*◌, ◌/◌, ◌%◌, ◌^◌, ◌<◌, ◌≤◌, ◌≡◌, refl, ap, ap₂, ◌∙◌, List, [], ◌∷◌, arith,
  length, All, take, drop, length-take, length-drop, subst,
}

-- The `n` bytes of a value.
abbrev pub to_le : ℕ → ℕ → List ℕ
to_le zero v = []
to_le (suc n) v = v % 256 ∷ to_le n (v / 256)

unfoldable pub from_le : List ℕ → ℕ
from_le [] = 0
from_le (b ∷ bs) = b + 256 * from_le bs

abbrev pub IsByte : ℕ → Type 0
IsByte b = b < 256

pub from_le-to_le : (n v : ℕ) → v < 256 ^ n → from_le (to_le n v) ≡ v
unfolding from_le
from_le-to_le zero v h = omega arith
from_le-to_le (suc n) v h = omega (arith, from_le-to_le n (v / 256) (omega (arith, pow-suc 256 n)))

pub from_le-lt : (bs : List ℕ) → All IsByte bs → from_le bs < 256 ^ length bs
unfolding from_le
from_le-lt [] h = omega arith
from_le-lt (b ∷ bs) h = omega (arith, from_le-lt bs h.1, pow-suc 256 (length bs))

pub to_le-from_le : (bs : List ℕ) → All IsByte bs → to_le (length bs) (from_le bs) ≡ bs
unfolding from_le
to_le-from_le [] h = refl
to_le-from_le (b ∷ bs) h =
    ap₂ ◌∷◌ (omega (arith, h.0))
      (ap (to_le (length bs)) (omega (arith, h.0)) ∙ to_le-from_le bs h.1)

module _ {ℓ} (P : ℕ → Type ℓ) where
  All-take : (n : ℕ) (xs : List ℕ) → All P xs → All P (take n xs)
  All-take zero xs h = tt
  All-take (suc n) [] h = tt
  All-take (suc n) (x ∷ xs) h = (h.0, All-take n xs h.1)

  pub All-drop : (n : ℕ) (xs : List ℕ) → All P xs → All P (drop n xs)
  All-drop zero xs h = h
  All-drop (suc n) [] h = tt
  All-drop (suc n) (x ∷ xs) h = All-drop n xs h.1

-- Encoding what was read at an offset gives back the bytes that were read.
pub to_le-slice :
    (n offset : ℕ) (s : List ℕ) {v : ℕ}
    → All IsByte s
    → offset + n ≤ length s
    → v ≡ from_le (take n (drop offset s))
    → to_le n v ≡ take n (drop offset s)
to_le-slice n offset s {v} h long e =
    let enough : n ≤ length (drop offset s) = omega (arith, length-drop offset s) in
    ap (to_le n) e
    ∙ subst (λ k. to_le k (from_le (take n (drop offset s))) ≡ take n (drop offset s))
        (length-take n (drop offset s) enough)
        (to_le-from_le _ (All-take IsByte n _ (All-drop IsByte offset s h)))
