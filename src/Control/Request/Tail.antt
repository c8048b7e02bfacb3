-- ===== src/Control/Request/Tail.antt =====
-- ControlRequestMetadata with its diagnostics: `parse_with_diagnostics` and `to_vec_with_diagnostics` agree.
use nnrp_rs.Base.{ℕ, ◌≡◌, ◌↔◌, List, All}
use nnrp_rs.Error.{ok}
use nnrp_rs.Wire.Little.{IsByte}
use nnrp_rs.Wire.Codec.{parse_with_tail_iff}
use nnrp_rs.Control.Request.{
  ControlRequestMetadata, to_bytes, parse_with_diagnostics, to_vec_with_diagnostics,
}
use nnrp_rs.Control.Request.RoundTrip.{InRange, codec}

-- A buffer of bytes is split by `parse_with_diagnostics` into a given ControlRequestMetadata,
-- whose fields fit their integer types, and the bytes behind it exactly when
-- `to_vec_with_diagnostics` encodes the two as that buffer.
pub control_request_diagnostics_iff :
    (s d : List ℕ) (m : ControlRequestMetadata)
    → All IsByte s
    → InRange m
    → (parse_with_diagnostics s ≡ ok (m, d)) ↔ (to_vec_with_diagnostics m d ≡ ok s)
unfolding parse_with_diagnostics to_vec_with_diagnostics to_bytes codec
control_request_diagnostics_iff =
    parse_with_tail_iff codec (λ m. m.diagnostic_bytes) "control_request.diagnostic_bytes"
