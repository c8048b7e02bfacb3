-- ===== src/Enums/BackpressureLevel.antt =====
-- crates/nnrp-core/src/enums.rs: BackpressureLevel and its codes on the wire.
use nnrp_rs.Base.{ℕ, ◌≡◌, ◌<◌, refl, List, [], ◌∷◌, arith}
use nnrp_rs.Error.{Result, ok, unknown_enum_value}
use nnrp_rs.Enums.Arms.{match_arms, match_arms-code}

pub data BackpressureLevel : Type 0 where
  none soft hard paused : BackpressureLevel

-- The discriminants of `repr(u8)`.
unfoldable pub as_u8 : BackpressureLevel → ℕ
as_u8 none = 0
as_u8 soft = 1
as_u8 hard = 2
as_u8 paused = 3

abbrev arms : List (ℕ × BackpressureLevel)
arms = (0, none) ∷ (1, soft) ∷ (2, hard) ∷ (3, paused) ∷ []

unfoldable pub try_from_u8 : ℕ → Result BackpressureLevel
try_from_u8 value = match_arms arms (unknown_enum_value "backpressure_level" value) value

pub try_from_u8-as_u8 : (t : BackpressureLevel) → try_from_u8 (as_u8 t) ≡ ok t
unfolding try_from_u8 as_u8
try_from_u8-as_u8 none = refl
try_from_u8-as_u8 _ = refl

pub as_u8-try_from_u8 :
    (value : ℕ) {t : BackpressureLevel} → try_from_u8 value ≡ ok t → as_u8 t ≡ value
unfolding try_from_u8 as_u8
as_u8-try_from_u8 value h =
    match_arms-code as_u8 arms (unknown_enum_value "backpressure_level" value) value (omega arith) h

pub as_u8-lt : (t : BackpressureLevel) → as_u8 t < 256
unfolding as_u8
as_u8-lt none = omega arith
as_u8-lt _ = omega arith
