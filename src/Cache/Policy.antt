-- ===== src/Cache/Policy.antt =====
-- crates/nnrp-core/src/cache.rs: CachePolicyOptions.
use nnrp_rs.Base.{
  ℕ, ◌≡◌, ◌≢◌, ◌↔◌, ◌⊎◌, inl, inr, Bool, true, false, not, ◌!=◌, ◌&&◌, ◌||◌, Option, none, is_some,
  arith, Bool-cases,
}
use nnrp_rs.Error.{Result, ok, reject_if, ◌>>◌, invalid_protocol_combination}
use nnrp_rs.Enums.CacheReuseScope.{CacheReuseScope}

pub data CacheInvalidationReason : Type 0 where
  explicit dependency_invalidated lease_expired : CacheInvalidationReason
  version_mismatch schema_mismatch : CacheInvalidationReason

pub record CachePolicyOptions : Type 0 where
  pub enabled : Bool
  pub reuse_scope : Option CacheReuseScope
  pub expiration_hint_ms : ℕ
  pub invalidation_reason : CacheInvalidationReason

pub default : CachePolicyOptions
default = record {
  enabled = false;
  reuse_scope = none;
  expiration_hint_ms = 0;
  invalidation_reason = explicit;
}

pub validate : CachePolicyOptions → Result (Unit {0})
validate o = do
  reject_if (not o.enabled && (is_some o.reuse_scope || (o.expiration_hint_ms != 0))) (
      invalid_protocol_combination
        "disabled cache policy must not carry reuse scope or expiration hint")
  reject_if (o.enabled && not (is_some o.reuse_scope))
      (invalid_protocol_combination "enabled cache policy requires a reuse scope")

-- A policy is accepted exactly if it is enabled with a scope, or disabled with neither a scope nor an
-- expiration.
pub validate_iff :
    (o : CachePolicyOptions)
    → (validate o ≡ ok tt) ↔ (
        ((o.enabled ≡ true) × (o.reuse_scope ≢ none))
        ⊎ ((o.enabled ≡ false) × (o.reuse_scope ≡ none) × (o.expiration_hint_ms ≡ 0)))
unfolding validate
validate_iff o = elim (Bool-cases o.enabled) [
  | inl on ↦ (λ e. inl (on, ground arith), λ h. ground arith)
  | inr off ↦ (λ e. inr (off, ground arith, ground arith), λ h. ground arith)
]
