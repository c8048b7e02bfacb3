-- ===== src/Enums/FlowUpdateReason.antt =====
-- crates/nnrp-core/src/enums.rs: FlowUpdateReason and its codes on the wire.
use nnrp_rs.Base.{ℕ, ◌≡◌, ◌<◌, refl, List, [], ◌∷◌, arith}
use nnrp_rs.Error.{Result, ok, unknown_enum_value}
use nnrp_rs.Enums.Arms.{match_arms, match_arms-code}

pub data FlowUpdateReason : Type 0 where
  grant reduce pause resume congestion : FlowUpdateReason

-- The discriminants of `repr(u8)`.
unfoldable pub as_u8 : FlowUpdateReason → ℕ
as_u8 grant = 0
as_u8 reduce = 1
as_u8 pause = 2
as_u8 resume = 3
as_u8 congestion = 4

abbrev arms : List (ℕ × FlowUpdateReason)
arms = (0, grant) ∷ (1, reduce) ∷ (2, pause) ∷ (3, resume) ∷ (4, congestion) ∷ []

unfoldable pub try_from_u8 : ℕ → Result FlowUpdateReason
try_from_u8 value = match_arms arms (unknown_enum_value "update_reason" value) value

pub try_from_u8-as_u8 : (t : FlowUpdateReason) → try_from_u8 (as_u8 t) ≡ ok t
unfolding try_from_u8 as_u8
try_from_u8-as_u8 grant = refl
try_from_u8-as_u8 _ = refl

pub as_u8-try_from_u8 :
    (value : ℕ) {t : FlowUpdateReason} → try_from_u8 value ≡ ok t → as_u8 t ≡ value
unfolding try_from_u8 as_u8
as_u8-try_from_u8 value h =
    match_arms-code as_u8 arms (unknown_enum_value "update_reason" value) value (omega arith) h

pub as_u8-lt : (t : FlowUpdateReason) → as_u8 t < 256
unfolding as_u8
as_u8-lt grant = omega arith
as_u8-lt _ = omega arith
