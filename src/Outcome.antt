-- ===== src/Outcome.antt =====
-- Rust's Result where the error is a component's own type, and the `?` of the source.
use nnrp_rs.Base.{◌≡◌, refl, ◌⊎◌, inl, inr, Bool, true, false, Option, none, some}

pub data Outcome {ℓ κ} (Failure : Type ℓ) (Value : Type κ) : Type (ℓ ⊔ κ) where
  ok : Value → Outcome Failure Value
  err : Failure → Outcome Failure Value

module _ {ℓ} {Failure : Type ℓ} where
  -- `if bad { return Err(reason) }`.
  abbrev pub reject_if : (bad : Bool) → (reason : Failure) → Outcome Failure (Unit {0})
  reject_if false reason = ok tt
  reject_if true reason = err reason

  infixl 5 ◌>>=◌ ◌>>◌
  abbrev pub ◌>>=◌ {κ μ} :
      {Value : Type κ} {Next : Type μ}
      → Outcome Failure Value
      → (Value → Outcome Failure Next)
      → Outcome Failure Next
  err reason >>= rest = err reason
  ok value >>= rest = rest value

  -- The same for a check, which has no value.
  abbrev pub ◌>>◌ {κ} :
      {Next : Type κ} → Outcome Failure (Unit {0}) → Outcome Failure Next → Outcome Failure Next
  check >> rest = check >>= λ u. rest

  -- Option::ok_or.
  abbrev pub ok_or {κ} : {Value : Type κ} → Option Value → Failure → Outcome Failure Value
  ok_or (some value) reason = ok value
  ok_or none reason = err reason

  pub Outcome-cases {κ} :
      {Value : Type κ} (o : Outcome Failure Value)
      → ((v : Value) × (o ≡ ok v)) ⊎ ((e : Failure) × (o ≡ err e))
  Outcome-cases (ok v) = inl (v, refl)
  Outcome-cases (err e) = inr (e, refl)
