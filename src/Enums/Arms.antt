-- ===== src/Enums/Arms.antt =====
-- `match value { k => Ok(c), …, _ => Err(e) }` over integer literals, and its laws.
use nnrp_rs.Base.{
  ℕ, ◌≡◌, Option, none, some, List, [], ◌∷◌, arith, if◌then◌else◌, ◌==◌, ==_iff, All,
}
use nnrp_rs.Error.{NnrpError, Result, ok, err}

module _ {ℓ} {A : Type ℓ} where
  -- The first arm whose literal is the value.
  abbrev pub first_arm : List (ℕ × A) → ℕ → Option A
  first_arm [] v = none
  first_arm ((k, a) ∷ arms) v = if k == v then some a else first_arm arms v

  abbrev pub or_else : Option A → NnrpError → Result A
  or_else none e = err e
  or_else (some a) e = ok a

  abbrev pub match_arms : List (ℕ × A) → NnrpError → ℕ → Result A
  match_arms arms e v = or_else (first_arm arms v) e

  -- Every arm's literal is the discriminant of what it returns.
  abbrev pub Agrees : (A → ℕ) → List (ℕ × A) → Type 0
  Agrees code arms = All (λ (arm : ℕ × A). code arm.1 ≡ arm.0) arms

  first_arm-code :
      (code : A → ℕ) (arms : List (ℕ × A)) (v : ℕ) (a : A)
      → Agrees code arms
      → first_arm arms v ≡ some a
      → code a ≡ v
  first_arm-code code [] v a h e = cc
  first_arm-code code ((k, b) ∷ arms) v a h e =
      ground (arith, first_arm-code code arms v a h.1, ==_iff k v)

  -- A value that decodes is the discriminant of what it decodes to.
  pub match_arms-code :
      (code : A → ℕ) (arms : List (ℕ × A)) (f : NnrpError) (v : ℕ) {a : A}
      → Agrees code arms
      → match_arms arms f v ≡ ok a
      → code a ≡ v
  match_arms-code code arms f v {a} h e = ground (arith, first_arm-code code arms v a h)
