-- ===== src/Base/Dict.antt =====
-- Rust's BTreeMap with integer keys: an association list in ascending order of the keys.
use Prim.Native.Nat.{ℕ, suc, ◌+◌, ◌<◌, ◌≤◌}
use mathlib.Core.Path.{◌≡◌, refl}
use mathlib.Core.Bool.{Bool, true, false}
use mathlib.Core.Option
use mathlib.Core.Option.{Option, none, some}
use mathlib.Core.List.{List, [], ◌∷◌}
use native.Mathlib.Omega.{arith}
use nnrp_rs.Base.Tests.{if◌then◌else◌, ◌==◌, ltb, is_some}
use nnrp_rs.Base.Lists.{length}

abbrev pub Dict {ℓ} : Type ℓ → Type ℓ
Dict V = List (ℕ × V)

module _ {ℓ} {V : Type ℓ} where
  unfoldable pub get : ℕ → Dict V → Option V
  get k [] = none
  get k ((j, v) ∷ m) = if j == k then some v else get k m

  unfoldable pub insert : ℕ → V → Dict V → Dict V
  insert k v [] = (k, v) ∷ []
  insert k v ((j, w) ∷ m) =
      if ltb k j then (k, v) ∷ (j, w) ∷ m else if j == k then (k, v) ∷ m else (j, w) ∷ insert k v m

  -- An assignment through the reference that `get_mut` returns.
  unfoldable pub set : ℕ → V → Dict V → Dict V
  set k v [] = []
  set k v ((j, w) ∷ m) = if j == k then (k, v) ∷ m else (j, w) ∷ set k v m

  unfoldable pub contains_key : ℕ → Dict V → Bool
  contains_key k [] = false
  contains_key k ((j, v) ∷ m) = if j == k then true else contains_key k m

  unfoldable pub values : Dict V → List V
  values [] = []
  values ((k, v) ∷ m) = v ∷ values m

  -- What `for v in m.values_mut()` does with an assignment to each value.
  unfoldable pub map_values : (V → V) → Dict V → Dict V
  map_values f [] = []
  map_values f ((k, v) ∷ m) = (k, f v) ∷ map_values f m

  unfoldable pub remove : ℕ → Dict V → Dict V
  remove k [] = []
  remove k ((j, v) ∷ m) = if j == k then m else (j, v) ∷ remove k m

  -- The keys ascend, and all stand above the bound.
  abbrev pub Above : ℕ → Dict V → Type 0
  Above n [] = Unit
  Above n ((k, v) ∷ m) = (n < suc k) × Above (suc k) m

  abbrev pub Ascends : Dict V → Type 0
  Ascends m = Above 0 m

  pub get-insert :
      (j k : ℕ) (v : V) (m : Dict V) → get j (insert k v m) ≡ (if k == j then some v else get j m)
  unfolding get insert
  get-insert j k v [] = refl
  get-insert j k v ((i, w) ∷ m) = ground (arith, get-insert j k v m)

  pub get-set :
      (j k : ℕ) (v w : V) (m : Dict V)
      → get k m ≡ some w
      → get j (set k v m) ≡ (if k == j then some v else get j m)
  unfolding get set
  get-set j k v w [] h = ground arith
  get-set j k v w ((i, u) ∷ m) h = ground (arith, get-set j k v w m)

  pub contains_key_iff : (k : ℕ) (m : Dict V) → contains_key k m ≡ is_some (get k m)
  unfolding contains_key get
  contains_key_iff k [] = refl
  contains_key_iff k ((j, v) ∷ m) = ground (arith, contains_key_iff k m)

  pub get-map_values :
      (f : V → V) (k : ℕ) (m : Dict V) → get k (map_values f m) ≡ Option.map f (get k m)
  unfolding get map_values
  get-map_values f k [] = refl
  get-map_values f k ((j, v) ∷ m) = ground (arith, get-map_values f k m)

  pub Above-insert : (n k : ℕ) (v : V) (m : Dict V) → n < suc k → Above n m → Above n (insert k v m)
  unfolding insert
  Above-insert n k v [] h a = (h, tt)
  Above-insert n k v ((j, w) ∷ m) h a = ground (arith, Above-insert (suc j) k v m)

  pub Above-set : (n k : ℕ) (v : V) (m : Dict V) → Above n m → Above n (set k v m)
  unfolding set
  Above-set n k v [] a = tt
  Above-set n k v ((j, w) ∷ m) a = ground (arith, Above-set (suc j) k v m)

  pub length-set : (k : ℕ) (v : V) (m : Dict V) → length (set k v m) ≡ length m
  unfolding set
  length-set k v [] = refl
  length-set k v ((j, w) ∷ m) = ground (arith, length-set k v m)

  pub length-insert :
      (k : ℕ) (v : V) (m : Dict V) → get k m ≡ none → length (insert k v m) ≡ length m + 1
  unfolding get insert
  length-insert k v [] h = omega arith
  length-insert k v ((j, w) ∷ m) h = ground (arith, length-insert k v m)

  pub length-map_values : (f : V → V) (m : Dict V) → length (map_values f m) ≡ length m
  unfolding map_values
  length-map_values f [] = refl
  length-map_values f ((j, w) ∷ m) = ground (arith, length-map_values f m)

  pub Above-get : (n k : ℕ) (v : V) (m : Dict V) → Above n m → get k m ≡ some v → n < suc k
  unfolding get
  Above-get n k v [] a e = absurd (cc)
  Above-get n k v ((j, w) ∷ m) a e = ground (arith, Above-get (suc j) k v m a.1)

  pub Above-map_values : (n : ℕ) (f : V → V) (m : Dict V) → Above n m → Above n (map_values f m)
  unfolding map_values
  Above-map_values n f [] a = tt
  Above-map_values n f ((j, w) ∷ m) a = (a.0, Above-map_values (suc j) f m a.1)

  pub get-Above : (n k : ℕ) (m : Dict V) → k < suc n → Above (suc n) m → get k m ≡ none
  unfolding get
  get-Above n k [] h a = refl
  get-Above n k ((j, w) ∷ m) h a = ground (arith, get-Above j k m)

  pub Above-weaken : (n k : ℕ) (m : Dict V) → n ≤ k → Above k m → Above n m
  Above-weaken n k [] h a = tt
  Above-weaken n k ((j, w) ∷ m) h a = (omega arith, a.1)

  pub Above-remove : (n k : ℕ) (m : Dict V) → Above n m → Above n (remove k m)
  unfolding remove
  Above-remove n k [] a = tt
  Above-remove n k ((j, w) ∷ m) a =
      ground (arith, Above-remove (suc j) k m, Above-weaken n (suc j) m)

  pub get-remove :
      (j k n : ℕ) (m : Dict V) → Above n m → get j (remove k m) ≡ (if k == j then none else get j m)
  unfolding get remove
  get-remove j k n [] a = ground arith
  get-remove j k n ((i, w) ∷ m) a = ground (arith, get-remove j k (suc i) m, get-Above i j m)

  pub length-remove :
      (k : ℕ) (v : V) (m : Dict V) → get k m ≡ some v → length (remove k m) + 1 ≡ length m
  unfolding get remove
  length-remove k v [] h = absurd (cc)
  length-remove k v ((j, w) ∷ m) h = ground (arith, length-remove k v m)

  pub length-remove_le : (k : ℕ) (m : Dict V) → length (remove k m) ≤ length m
  unfolding remove
  length-remove_le k [] = omega arith
  length-remove_le k ((j, w) ∷ m) = ground (arith, length-remove_le k m)
