-- ===== src/Enums/CacheReuseScope.antt =====
-- crates/nnrp-core/src/object.rs: CacheReuseScope and its codes on the wire.
use nnrp_rs.Base.{ℕ, ◌≡◌, ◌<◌, refl, List, [], ◌∷◌, arith}
use nnrp_rs.Error.{Result, ok, unknown_enum_value}
use nnrp_rs.Enums.Arms.{match_arms, match_arms-code}

pub data CacheReuseScope : Type 0 where
  operation session connection global : CacheReuseScope
  tenant profile : CacheReuseScope

-- The discriminants of `repr(u16)`.
unfoldable pub as_u16 : CacheReuseScope → ℕ
as_u16 operation = 0x0000
as_u16 session = 0x0001
as_u16 connection = 0x0002
as_u16 global = 0x0003
as_u16 tenant = 0x0004
as_u16 profile = 0x0005

abbrev arms : List (ℕ × CacheReuseScope)
arms =
    (0x0000, operation)
    ∷ (0x0001, session)
    ∷ (0x0002, connection)
    ∷ (0x0003, global)
    ∷ (0x0004, tenant)
    ∷ (0x0005, profile)
    ∷ []

unfoldable pub try_from_u16 : ℕ → Result CacheReuseScope
try_from_u16 value = match_arms arms (unknown_enum_value "cache_reuse_scope" value) value

pub try_from_u16-as_u16 : (t : CacheReuseScope) → try_from_u16 (as_u16 t) ≡ ok t
unfolding try_from_u16 as_u16
try_from_u16-as_u16 operation = refl
try_from_u16-as_u16 _ = refl

pub as_u16-try_from_u16 :
    (value : ℕ) {t : CacheReuseScope} → try_from_u16 value ≡ ok t → as_u16 t ≡ value
unfolding try_from_u16 as_u16
as_u16-try_from_u16 value h =
    match_arms-code as_u16 arms (unknown_enum_value "cache_reuse_scope" value) value (omega arith) h

pub as_u16-lt : (t : CacheReuseScope) → as_u16 t < 65536
unfolding as_u16
as_u16-lt operation = omega arith
as_u16-lt _ = omega arith
