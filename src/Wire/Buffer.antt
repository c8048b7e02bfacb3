-- ===== src/Wire/Buffer.antt =====
-- Slices of a byte buffer: indexing and copy_from_slice.
use nnrp_rs.Base.{
  ℕ, zero, suc, ◌≤◌, ◌≡◌, refl, sym, subst, ap, ap₂, ◌++◌, List, [], ◌∷◌, arith, length, drop, Bool,
  true, false, ◌==◌, ◌&&◌,
}

-- `source[i]`.
unfoldable pub byte_at : List ℕ → ℕ → ℕ
byte_at [] i = 0
byte_at (b ∷ bs) zero = b
byte_at (b ∷ bs) (suc i) = byte_at bs i

-- `destination[..n].copy_from_slice(bytes)` for `n` bytes.
abbrev pub overlay : List ℕ → List ℕ → List ℕ
overlay [] d = d
overlay (b ∷ bs) [] = []
overlay (b ∷ bs) (x ∷ d) = b ∷ overlay bs d

-- `destination[offset..offset + n].copy_from_slice(bytes)`.
abbrev pub splice : ℕ → List ℕ → List ℕ → List ℕ
splice zero bytes d = overlay bytes d
splice (suc offset) bytes [] = []
splice (suc offset) bytes (x ∷ d) = x ∷ splice offset bytes d

-- `==` on slices.
unfoldable pub bytes_eq : List ℕ → List ℕ → Bool
bytes_eq [] [] = true
bytes_eq (a ∷ as') (b ∷ bs) = (a == b) && bytes_eq as' bs
bytes_eq _ _ = false

-- `n` bytes, one by one.
abbrev pub Bytes : ℕ → Type 0
Bytes zero = Unit
Bytes (suc n) = ℕ × Bytes n

abbrev pub followed_by : (n : ℕ) → Bytes n → List ℕ → List ℕ
followed_by zero v rest = rest
followed_by (suc n) v rest = v.0 ∷ followed_by n v.1 rest

-- A buffer that is long enough shows its first `n` bytes.
split-Bytes : (n : ℕ) (d : List ℕ) → n ≤ length d → (v : Bytes n) × (d ≡ followed_by n v (drop n d))
split-Bytes zero d h = (tt, refl)
split-Bytes (suc n) [] h = absurd (omega arith)
split-Bytes (suc n) (x ∷ d) h = let (v, e) = split-Bytes n d (omega arith) in ((x, v), ap (◌∷◌ x) e)

-- What holds of all lists that show their first `n` bytes holds of all that are long enough.
pub by_bytes {ℓ} :
    (P : List ℕ → Type ℓ) (n : ℕ)
    → ((v : Bytes n) (rest : List ℕ) → P (followed_by n v rest))
    → (d : List ℕ) → n ≤ length d
    → P d
by_bytes P n h d long = let (v, e) = split-Bytes n d long in subst P (sym e) (h v (drop n d))

pub bytes_eq-eq : (as' bs : List ℕ) → bytes_eq as' bs ≡ true → as' ≡ bs
unfolding bytes_eq
bytes_eq-eq [] [] h = refl
bytes_eq-eq [] (b ∷ bs) h = cc
bytes_eq-eq (a ∷ as') [] h = cc
bytes_eq-eq (a ∷ as') (b ∷ bs) h = ground (arith, bytes_eq-eq as' bs)

-- Two layouts agree piece by piece.
infixl 65 ◌⊹◌
abbrev pub ◌⊹◌ : {a b c d : List ℕ} → a ≡ b → c ≡ d → a ++ c ≡ b ++ d
p ⊹ q = ap₂ ◌++◌ p q
