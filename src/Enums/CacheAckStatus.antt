-- ===== src/Enums/CacheAckStatus.antt =====
-- crates/nnrp-core/src/cache.rs: CacheAckStatus and its codes on the wire.
use nnrp_rs.Base.{ℕ, ◌≡◌, ◌<◌, refl, List, [], ◌∷◌, arith}
use nnrp_rs.Error.{Result, ok, unknown_enum_value}
use nnrp_rs.Enums.Arms.{match_arms, match_arms-code}

pub data CacheAckStatus : Type 0 where
  accepted rejected replaced : CacheAckStatus

-- The discriminants of `repr(u32)`.
unfoldable pub as_u32 : CacheAckStatus → ℕ
as_u32 accepted = 0
as_u32 rejected = 1
as_u32 replaced = 2

abbrev arms : List (ℕ × CacheAckStatus)
arms = (0, accepted) ∷ (1, rejected) ∷ (2, replaced) ∷ []

unfoldable pub try_from_u32 : ℕ → Result CacheAckStatus
try_from_u32 value = match_arms arms (unknown_enum_value "cache_ack_status" value) value

pub try_from_u32-as_u32 : (t : CacheAckStatus) → try_from_u32 (as_u32 t) ≡ ok t
unfolding try_from_u32 as_u32
try_from_u32-as_u32 accepted = refl
try_from_u32-as_u32 _ = refl

pub as_u32-try_from_u32 :
    (value : ℕ) {t : CacheAckStatus} → try_from_u32 value ≡ ok t → as_u32 t ≡ value
unfolding try_from_u32 as_u32
as_u32-try_from_u32 value h =
    match_arms-code as_u32 arms (unknown_enum_value "cache_ack_status" value) value (omega arith) h

pub as_u32-lt : (t : CacheAckStatus) → as_u32 t < 4294967296
unfolding as_u32
as_u32-lt accepted = omega arith
as_u32-lt _ = omega arith
