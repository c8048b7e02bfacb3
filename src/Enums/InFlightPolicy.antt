-- ===== src/Enums/InFlightPolicy.antt =====
-- crates/nnrp-core/src/enums.rs: InFlightPolicy and its codes on the wire.
use nnrp_rs.Base.{ℕ, ◌≡◌, ◌<◌, refl, List, [], ◌∷◌, arith}
use nnrp_rs.Error.{Result, ok, unknown_enum_value}
use nnrp_rs.Enums.Arms.{match_arms, match_arms-code}

pub data InFlightPolicy : Type 0 where
  drain abort : InFlightPolicy

-- The discriminants of `repr(u8)`.
unfoldable pub as_u8 : InFlightPolicy → ℕ
as_u8 drain = 0
as_u8 abort = 1

abbrev arms : List (ℕ × InFlightPolicy)
arms = (0, drain) ∷ (1, abort) ∷ []

unfoldable pub try_from_u8 : ℕ → Result InFlightPolicy
try_from_u8 value = match_arms arms (unknown_enum_value "in_flight_policy" value) value

pub try_from_u8-as_u8 : (t : InFlightPolicy) → try_from_u8 (as_u8 t) ≡ ok t
unfolding try_from_u8 as_u8
try_from_u8-as_u8 drain = refl
try_from_u8-as_u8 _ = refl

pub as_u8-try_from_u8 :
    (value : ℕ) {t : InFlightPolicy} → try_from_u8 value ≡ ok t → as_u8 t ≡ value
unfolding try_from_u8 as_u8
as_u8-try_from_u8 value h =
    match_arms-code as_u8 arms (unknown_enum_value "in_flight_policy" value) value (omega arith) h

pub as_u8-lt : (t : InFlightPolicy) → as_u8 t < 256
unfolding as_u8
as_u8-lt drain = omega arith
as_u8-lt _ = omega arith
