-- ===== src/Cache/Leases.antt =====
-- crates/nnrp-core/src/cache.rs: leases on cached objects.
use nnrp_rs.Base.{ℕ, ◌+◌, ◌-◌, ◌<◌, ◌^◌, ◌≡◌, ◌↔◌, Bool, leb, ltb, ◌!=◌, if◌then◌else◌, arith}
use nnrp_rs.Outcome.{Outcome, ok, reject_if}
use nnrp_rs.Cache.Objects.{CacheObjectId}

pub data CacheLeaseOwnerScope : Type 0 where
  connection session operation : CacheLeaseOwnerScope

pub record CacheLease : Type 0 where
  pub object_id : CacheObjectId
  pub object_version : ℕ
  pub lease_id : ℕ
  pub owner_scope : CacheLeaseOwnerScope
  pub owner_id : ℕ
  pub granted_at_ms : ℕ
  pub ttl_ms : ℕ

pub data CacheValidationFailure : Type 0 where
  miss lease_expired version_mismatch dependency_invalid schema_mismatch : CacheValidationFailure

pub error_code : CacheValidationFailure → ℕ
error_code miss = 0x00030001
error_code lease_expired = 0x00030002
error_code version_mismatch = 0x00030003
error_code dependency_invalid = 0x00030004
error_code schema_mismatch = 0x00030005

-- `u64::saturating_add`.
saturating_add : ℕ → ℕ → ℕ
saturating_add a b = if ltb (a + b) (2 ^ 64) then a + b else 2 ^ 64 - 1

pub expires_at_ms : CacheLease → ℕ
unfolding saturating_add
expires_at_ms lease = saturating_add lease.granted_at_ms lease.ttl_ms

pub is_expired_at : CacheLease → ℕ → Bool
unfolding expires_at_ms
is_expired_at lease now_ms = leb (expires_at_ms lease) now_ms

pub validate_live_at : CacheLease → ℕ → Outcome CacheValidationFailure (Unit {0})
unfolding is_expired_at
validate_live_at lease now_ms = reject_if (is_expired_at lease now_ms) lease_expired

pub validate_version : CacheLease → ℕ → Outcome CacheValidationFailure (Unit {0})
validate_version lease expected_version =
    reject_if (lease.object_version != expected_version) version_mismatch

-- A lease is live exactly until its time has passed since it was granted, and never at the last
-- instant that a clock of 64 bits can show; so the sum does not wrap to an early end.
pub validate_live_at_iff :
    (lease : CacheLease) (now : ℕ)
    → (validate_live_at lease now ≡ ok tt)
      ↔ ((now < lease.granted_at_ms + lease.ttl_ms) × (now < 2 ^ 64 - 1))
unfolding validate_live_at
validate_live_at_iff lease now = (λ e. ground arith, λ h. ground arith)
