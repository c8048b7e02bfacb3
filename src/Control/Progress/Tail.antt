-- ===== src/Control/Progress/Tail.antt =====
-- ProgressMetadata with its body: `parse_with_body` and `to_vec_with_body` agree.
use nnrp_rs.Base.{ℕ, ◌≡◌, ◌↔◌, List, All}
use nnrp_rs.Error.{ok}
use nnrp_rs.Wire.Little.{IsByte}
use nnrp_rs.Wire.Codec.{parse_with_tail_iff}
use nnrp_rs.Control.Progress.{ProgressMetadata, to_bytes, parse_with_body, to_vec_with_body}
use nnrp_rs.Control.Progress.RoundTrip.{InRange, codec}

-- A buffer of bytes is split by `parse_with_body` into a given ProgressMetadata,
-- whose fields fit their integer types, and the bytes behind it exactly when
-- `to_vec_with_body` encodes the two as that buffer.
pub progress_body_iff :
    (s d : List ℕ) (m : ProgressMetadata)
    → All IsByte s
    → InRange m
    → (parse_with_body s ≡ ok (m, d)) ↔ (to_vec_with_body m d ≡ ok s)
unfolding parse_with_body to_vec_with_body to_bytes codec
progress_body_iff = parse_with_tail_iff codec (λ m. m.body_bytes) "progress.body_bytes"
