-- ===== src/Enums/CancelScope.antt =====
-- crates/nnrp-core/src/enums.rs: CancelScope and its codes on the wire.
use nnrp_rs.Base.{ℕ, ◌≡◌, ◌<◌, refl, List, [], ◌∷◌, arith}
use nnrp_rs.Error.{Result, ok, unknown_enum_value}
use nnrp_rs.Enums.Arms.{match_arms, match_arms-code}

pub data CancelScope : Type 0 where
  operation subtree group session : CancelScope

-- The discriminants of `repr(u8)`.
unfoldable pub as_u8 : CancelScope → ℕ
as_u8 operation = 0
as_u8 subtree = 1
as_u8 group = 2
as_u8 session = 3

abbrev arms : List (ℕ × CancelScope)
arms = (0, operation) ∷ (1, subtree) ∷ (2, group) ∷ (3, session) ∷ []

unfoldable pub try_from_u8 : ℕ → Result CancelScope
try_from_u8 value = match_arms arms (unknown_enum_value "cancel_scope" value) value

pub try_from_u8-as_u8 : (t : CancelScope) → try_from_u8 (as_u8 t) ≡ ok t
unfolding try_from_u8 as_u8
try_from_u8-as_u8 operation = refl
try_from_u8-as_u8 _ = refl

pub as_u8-try_from_u8 : (value : ℕ) {t : CancelScope} → try_from_u8 value ≡ ok t → as_u8 t ≡ value
unfolding try_from_u8 as_u8
as_u8-try_from_u8 value h =
    match_arms-code as_u8 arms (unknown_enum_value "cancel_scope" value) value (omega arith) h

pub as_u8-lt : (t : CancelScope) → as_u8 t < 256
unfolding as_u8
as_u8-lt operation = omega arith
as_u8-lt _ = omega arith
