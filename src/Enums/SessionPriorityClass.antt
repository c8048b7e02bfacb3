-- ===== src/Enums/SessionPriorityClass.antt =====
-- crates/nnrp-core/src/enums.rs: SessionPriorityClass and its codes on the wire.
use nnrp_rs.Base.{ℕ, ◌≡◌, ◌<◌, refl, List, [], ◌∷◌, arith}
use nnrp_rs.Error.{Result, ok, unknown_enum_value}
use nnrp_rs.Enums.Arms.{match_arms, match_arms-code}

pub data SessionPriorityClass : Type 0 where
  interactive balanced background : SessionPriorityClass

-- The discriminants of `repr(u8)`.
unfoldable pub as_u8 : SessionPriorityClass → ℕ
as_u8 interactive = 0
as_u8 balanced = 1
as_u8 background = 2

abbrev arms : List (ℕ × SessionPriorityClass)
arms = (0, interactive) ∷ (1, balanced) ∷ (2, background) ∷ []

unfoldable pub try_from_u8 : ℕ → Result SessionPriorityClass
try_from_u8 value = match_arms arms (unknown_enum_value "session_priority_class" value) value

pub try_from_u8-as_u8 : (t : SessionPriorityClass) → try_from_u8 (as_u8 t) ≡ ok t
unfolding try_from_u8 as_u8
try_from_u8-as_u8 interactive = refl
try_from_u8-as_u8 _ = refl

pub as_u8-try_from_u8 :
    (value : ℕ) {t : SessionPriorityClass} → try_from_u8 value ≡ ok t → as_u8 t ≡ value
unfolding try_from_u8 as_u8
as_u8-try_from_u8 value h =
    match_arms-code as_u8 arms (unknown_enum_value "session_priority_class" value) value
      (omega arith) h

pub as_u8-lt : (t : SessionPriorityClass) → as_u8 t < 256
unfolding as_u8
as_u8-lt interactive = omega arith
as_u8-lt _ = omega arith
