-- ===== src/Base/PairDict.antt =====
-- Rust's BTreeMap with pairs of integers as keys: an association list in ascending order of the keys,
-- by their first components, then by their second.
use Prim.Native.Nat.{ℕ, ◌<◌}
use mathlib.Core.Path.{◌≡◌, refl}
use mathlib.Core.Logic.{◌⊎◌, inl, inr}
use mathlib.Core.Bool.{Bool, true, false, ◌||◌}
use mathlib.Core.Option.{Option, none, some}
use mathlib.Core.List.{List, [], ◌∷◌}
use native.Mathlib.Omega.{arith}
use nnrp_rs.Base.Tests.{if◌then◌else◌, ◌==◌, ltb, Bool-cases}

abbrev pub PairDict : Type 0 → Type 0
PairDict V = List (ℕ × ℕ × V)

-- The order of Rust on pairs.
abbrev pub Before : (a b c d : ℕ) → Type 0
Before a b c d = (a < c) ⊎ ((a ≡ c) × (b < d))

abbrev pub before : (a b c d : ℕ) → Bool
before a b c d = if ltb a c then true else if a == c then ltb b d else false

abbrev pub same : (a b c d : ℕ) → Bool
same a b c d = if a == c then b == d else false

module _ {V : Type 0} where
  unfoldable pub get : ℕ → ℕ → PairDict V → Option V
  get a b [] = none
  get a b ((c, d, v) ∷ m) = if same c d a b then some v else get a b m

  unfoldable pub insert : ℕ → ℕ → V → PairDict V → PairDict V
  insert a b v [] = (a, b, v) ∷ []
  insert a b v ((c, d, w) ∷ m) =
      if before a b c d
      then (a, b, v) ∷ (c, d, w) ∷ m
      else if same c d a b
      then (a, b, v) ∷ m
      else (c, d, w) ∷ insert a b v m

  unfoldable pub remove : ℕ → ℕ → PairDict V → PairDict V
  remove a b [] = []
  remove a b ((c, d, w) ∷ m) = if same c d a b then m else (c, d, w) ∷ remove a b m

  -- `keys().any(test)`.
  unfoldable pub any_key : (ℕ → ℕ → Bool) → PairDict V → Bool
  any_key test [] = false
  any_key test ((c, d, w) ∷ m) = test c d || any_key test m

  unfoldable pub values : PairDict V → List V
  values [] = []
  values ((c, d, v) ∷ m) = v ∷ values m

  -- The keys ascend, and all stand above the bound.
  abbrev pub Above : ℕ → ℕ → PairDict V → Type 0
  Above a b [] = Unit
  Above a b ((c, d, v) ∷ m) = Before a b c d × Above c d m

  abbrev pub Ascends : PairDict V → Type 0
  Ascends [] = Unit
  Ascends ((c, d, v) ∷ m) = Above c d m

  pub get-insert :
      (c d a b : ℕ) (v : V) (m : PairDict V)
      → get c d (insert a b v m) ≡ (if same a b c d then some v else get c d m)
  unfolding get insert
  get-insert c d a b v [] = ground arith
  get-insert c d a b v ((e, f, w) ∷ m) = ground (arith, get-insert c d a b v m)

  pub get-Above : (a b c d : ℕ) (m : PairDict V) → Above c d m → ¬ Before c d a b → get a b m ≡ none
  unfolding get
  get-Above a b c d [] above low = refl
  get-Above a b c d ((e, f, w) ∷ m) above low = ground (arith, get-Above a b e f m)

  pub get-remove :
      (c d a b : ℕ) (m : PairDict V)
      → Ascends m
      → get c d (remove a b m) ≡ (if same a b c d then none else get c d m)
  unfolding get remove
  get-remove c d a b [] up = ground arith
  get-remove c d a b ((e, f, w) ∷ []) up = ground arith
  get-remove c d a b ((e, f, w) ∷ (g, h, x) ∷ m) up =
      ground (arith, get-remove c d a b ((g, h, x) ∷ m) up.1, get-Above e f e f ((g, h, x) ∷ m))

  Above-insert :
      (e f a b : ℕ) (v : V) (m : PairDict V)
      → Before e f a b
      → Above e f m
      → Above e f (insert a b v m)
  unfolding insert
  Above-insert e f a b v [] low above = (low, tt)
  Above-insert e f a b v ((c, d, w) ∷ m) low above = ground (arith, Above-insert c d a b v m)

  pub Ascends-insert : (a b : ℕ) (v : V) (m : PairDict V) → Ascends m → Ascends (insert a b v m)
  unfolding insert
  Ascends-insert a b v [] up = tt
  Ascends-insert a b v ((c, d, w) ∷ m) up = ground (arith, Above-insert c d a b v m)

  Above-weaken : (a b c d : ℕ) (m : PairDict V) → Before a b c d → Above c d m → Above a b m
  Above-weaken a b c d [] low above = tt
  Above-weaken a b c d ((e, f, w) ∷ m) low above = ground arith

  Above-remove : (e f a b : ℕ) (m : PairDict V) → Above e f m → Above e f (remove a b m)
  unfolding remove
  Above-remove e f a b [] above = tt
  Above-remove e f a b ((c, d, w) ∷ m) above =
      ground (arith, Above-remove c d a b m, Above-weaken e f c d m)

  Ascends-of_Above : (e f : ℕ) (m : PairDict V) → Above e f m → Ascends m
  Ascends-of_Above e f [] above = tt
  Ascends-of_Above e f ((c, d, w) ∷ m) above = above.1

  pub Ascends-remove : (a b : ℕ) (m : PairDict V) → Ascends m → Ascends (remove a b m)
  unfolding remove
  Ascends-remove a b [] up = tt
  Ascends-remove a b ((c, d, w) ∷ m) up =
      ground (arith, Above-remove c d a b m, Ascends-of_Above c d m)

  pub any_key_sound :
      (test : ℕ → ℕ → Bool) (m : PairDict V)
      → any_key test m ≡ true
      → (a : ℕ) × (b : ℕ) × (v : V) × (get a b m ≡ some v) × (test a b ≡ true)
  unfolding any_key get
  any_key_sound test [] h = absurd (cc)
  any_key_sound test ((c, d, w) ∷ m) h = elim (Bool-cases (test c d)) [
    | inl hit ↦ (c, d, w, ground arith, hit)
    | inr miss ↦
        let (a, b, v, found, hit) = any_key_sound test m (ground arith) in
        (a, b, v, ground (arith), hit)
  ]

  pub any_key_complete :
      (test : ℕ → ℕ → Bool) (m : PairDict V) (a b : ℕ) (v : V)
      → get a b m ≡ some v
      → test a b ≡ true
      → any_key test m ≡ true
  unfolding any_key get
  any_key_complete test [] a b v found hit = absurd (cc)
  any_key_complete test ((c, d, w) ∷ m) a b v found hit = elim (Bool-cases (same c d a b)) [
    | inl here ↦
        let first : c ≡ a = ground arith in
        let second : d ≡ b = ground arith in
        let hit' : test c d ≡ true = rw (first, second) hit in ground arith
    | inr there ↦ let rest = any_key_complete test m a b v (ground arith) hit in ground (arith)
  ]

  get-head : (a b : ℕ) (v : V) (m : PairDict V) → get a b ((a, b, v) ∷ m) ≡ some v
  unfolding get
  get-head a b v m = ground arith

  -- The keys below the first one are not there.
  get_below :
      (a b c d : ℕ) (w : V) (m : PairDict V)
      → Ascends ((c, d, w) ∷ m)
      → Before a b c d
      → get a b ((c, d, w) ∷ m) ≡ none
  unfolding get
  get_below a b c d w m up low = ground (arith, get-Above a b c d m)

  -- Two maps with the same look-ups start alike.
  heads-eq :
      (a b c d : ℕ) (v w : V) (m n : PairDict V)
      → Ascends ((a, b, v) ∷ m)
      → Ascends ((c, d, w) ∷ n)
      → get a b ((a, b, v) ∷ m) ≡ get a b ((c, d, w) ∷ n)
      → get c d ((a, b, v) ∷ m) ≡ get c d ((c, d, w) ∷ n)
      → (a ≡ c) × (b ≡ d) × (v ≡ w)
  heads-eq a b c d v w m n up up' h h' =
      let mine = get-head a b v m in
      let yours = get-head c d w n in
      elim (Bool-cases (same a b c d)) [
        | inl eq ↦
            let first : a ≡ c = ground arith in
            let second : b ≡ d = ground arith in
            let there : get a b ((c, d, w) ∷ n) ≡ some w = rw (first, second) yours in
            (first, second, cc)
        | inr ne ↦ absurd (ground (arith, get_below a b c d w n up', get_below c d a b v m up))
      ]

  tails-eq :
      (a b c d e f : ℕ) (v w : V) (m n : PairDict V)
      → c ≡ e
      → d ≡ f
      → v ≡ w
      → Above c d m
      → Above e f n
      → get a b ((c, d, v) ∷ m) ≡ get a b ((e, f, w) ∷ n)
      → get a b m ≡ get a b n
  unfolding get
  tails-eq a b c d e f v w m n first second value up up' h =
      ground (arith, get-Above a b c d m, get-Above a b e f n)

  -- Two maps with the same look-ups are the same.
  pub get-ext :
      (m n : PairDict V) → Ascends m → Ascends n → ((a b : ℕ) → get a b m ≡ get a b n) → m ≡ n
  unfolding get
  get-ext [] [] up up' h = refl
  get-ext [] ((c, d, w) ∷ n) up up' h = absurd (let e = h c d in ground arith)
  get-ext ((c, d, w) ∷ m) [] up up' h = absurd (let e = h c d in ground arith)
  get-ext ((a, b, v) ∷ m) ((c, d, w) ∷ n) up up' h =
      let (first, second, value) = heads-eq a b c d v w m n up up' (h a b) (h c d) in
      let tails = λ (e f : ℕ). tails-eq e f a b c d v w m n first second value up up' (h e f) in
      let rest = get-ext m n (Ascends-of_Above a b m up) (Ascends-of_Above c d n up') tails in cc
