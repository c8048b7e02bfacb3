-- ===== src/Enums/CacheInvalidateScope.antt =====
-- crates/nnrp-core/src/cache.rs: CacheInvalidateScope and its codes on the wire.
use nnrp_rs.Base.{ℕ, ◌≡◌, ◌<◌, refl, List, [], ◌∷◌, arith}
use nnrp_rs.Error.{Result, ok, unknown_enum_value}
use nnrp_rs.Enums.Arms.{match_arms, match_arms-code}

pub data CacheInvalidateScope : Type 0 where
  whole_session namespace object_kind object_key : CacheInvalidateScope

-- The discriminants of `repr(u32)`.
unfoldable pub as_u32 : CacheInvalidateScope → ℕ
as_u32 whole_session = 0
as_u32 namespace = 1
as_u32 object_kind = 2
as_u32 object_key = 3

abbrev arms : List (ℕ × CacheInvalidateScope)
arms = (0, whole_session) ∷ (1, namespace) ∷ (2, object_kind) ∷ (3, object_key) ∷ []

unfoldable pub try_from_u32 : ℕ → Result CacheInvalidateScope
try_from_u32 value = match_arms arms (unknown_enum_value "cache_invalidate_scope" value) value

pub try_from_u32-as_u32 : (t : CacheInvalidateScope) → try_from_u32 (as_u32 t) ≡ ok t
unfolding try_from_u32 as_u32
try_from_u32-as_u32 whole_session = refl
try_from_u32-as_u32 _ = refl

pub as_u32-try_from_u32 :
    (value : ℕ) {t : CacheInvalidateScope} → try_from_u32 value ≡ ok t → as_u32 t ≡ value
unfolding try_from_u32 as_u32
as_u32-try_from_u32 value h =
    match_arms-code as_u32 arms (unknown_enum_value "cache_invalidate_scope" value) value
      (omega arith) h

pub as_u32-lt : (t : CacheInvalidateScope) → as_u32 t < 4294967296
unfolding as_u32
as_u32-lt whole_session = omega arith
as_u32-lt _ = omega arith
