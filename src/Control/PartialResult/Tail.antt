-- ===== src/Control/PartialResult/Tail.antt =====
-- PartialResultMetadata with its body: `parse_with_body` and `to_vec_with_body` agree.
use nnrp_rs.Base.{ℕ, ◌≡◌, ◌↔◌, List, All}
use nnrp_rs.Error.{ok}
use nnrp_rs.Wire.Little.{IsByte}
use nnrp_rs.Wire.Codec.{parse_with_tail_iff}
use nnrp_rs.Control.PartialResult.{
  PartialResultMetadata, to_bytes, parse_with_body, to_vec_with_body,
}
use nnrp_rs.Control.PartialResult.RoundTrip.{InRange, codec}

-- A buffer of bytes is split by `parse_with_body` into a given PartialResultMetadata,
-- whose fields fit their integer types, and the bytes behind it exactly when
-- `to_vec_with_body` encodes the two as that buffer.
pub partial_result_body_iff :
    (s d : List ℕ) (m : PartialResultMetadata)
    → All IsByte s
    → InRange m
    → (parse_with_body s ≡ ok (m, d)) ↔ (to_vec_with_body m d ≡ ok s)
unfolding parse_with_body to_vec_with_body to_bytes codec
partial_result_body_iff = parse_with_tail_iff codec (λ m. m.body_bytes) "partial_result.body_bytes"
