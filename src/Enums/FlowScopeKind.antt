-- ===== src/Enums/FlowScopeKind.antt =====
-- crates/nnrp-core/src/enums.rs: FlowScopeKind and its codes on the wire.
use nnrp_rs.Base.{ℕ, ◌≡◌, ◌<◌, refl, List, [], ◌∷◌, arith}
use nnrp_rs.Error.{Result, ok, unknown_enum_value}
use nnrp_rs.Enums.Arms.{match_arms, match_arms-code}

pub data FlowScopeKind : Type 0 where
  connection session operation : FlowScopeKind

-- The discriminants of `repr(u8)`.
unfoldable pub as_u8 : FlowScopeKind → ℕ
as_u8 connection = 0
as_u8 session = 1
as_u8 operation = 2

abbrev arms : List (ℕ × FlowScopeKind)
arms = (0, connection) ∷ (1, session) ∷ (2, operation) ∷ []

unfoldable pub try_from_u8 : ℕ → Result FlowScopeKind
try_from_u8 value = match_arms arms (unknown_enum_value "scope_kind" value) value

pub try_from_u8-as_u8 : (t : FlowScopeKind) → try_from_u8 (as_u8 t) ≡ ok t
unfolding try_from_u8 as_u8
try_from_u8-as_u8 connection = refl
try_from_u8-as_u8 _ = refl

pub as_u8-try_from_u8 : (value : ℕ) {t : FlowScopeKind} → try_from_u8 value ≡ ok t → as_u8 t ≡ value
unfolding try_from_u8 as_u8
as_u8-try_from_u8 value h =
    match_arms-code as_u8 arms (unknown_enum_value "scope_kind" value) value (omega arith) h

pub as_u8-lt : (t : FlowScopeKind) → as_u8 t < 256
unfolding as_u8
as_u8-lt connection = omega arith
as_u8-lt _ = omega arith
