-- ===== src/Records/Tails.antt =====
-- The records with a tail behind them, in crates/nnrp-core/src/control.rs: diagnostics, or a body.
use nnrp_rs.Base.{ℕ, ◌≡◌, ◌↔◌, List, All}
use nnrp_rs.Error.{Result, ok}
use nnrp_rs.Wire.Little.{IsByte}
use nnrp_rs.Wire.Codec.{Codec}
use nnrp_rs.Control.Request
use nnrp_rs.Control.Request.{ControlRequestMetadata}
use nnrp_rs.Control.Request.Tail as RequestTail
use nnrp_rs.Control.Request.RoundTrip as RequestRoundTrip
use nnrp_rs.Control.Supersede
use nnrp_rs.Control.Supersede.{SupersedeMetadata}
use nnrp_rs.Control.Supersede.Tail as SupersedeTail
use nnrp_rs.Control.Supersede.RoundTrip as SupersedeRoundTrip
use nnrp_rs.Control.Progress
use nnrp_rs.Control.Progress.{ProgressMetadata}
use nnrp_rs.Control.Progress.Tail as ProgressTail
use nnrp_rs.Control.Progress.RoundTrip as ProgressRoundTrip
use nnrp_rs.Control.PartialResult
use nnrp_rs.Control.PartialResult.{PartialResultMetadata}
use nnrp_rs.Control.PartialResult.Tail as PartialResultTail
use nnrp_rs.Control.PartialResult.RoundTrip as PartialResultRoundTrip
use nnrp_rs.Control.DropReason
use nnrp_rs.Control.DropReason.{ResultDropReasonMetadata}
use nnrp_rs.Control.DropReason.Tail as DropReasonTail
use nnrp_rs.Control.DropReason.RoundTrip as DropReasonRoundTrip

pub data Tailed : Type 0 where
  control_request supersede progress partial_result result_drop_reason : Tailed

abbrev pub Content : Tailed → Type 0
Content control_request = ControlRequestMetadata
Content supersede = SupersedeMetadata
Content progress = ProgressMetadata
Content partial_result = PartialResultMetadata
Content result_drop_reason = ResultDropReasonMetadata

abbrev pub codec_of : (kind : Tailed) → Codec (Content kind)
codec_of control_request = RequestRoundTrip.codec
codec_of supersede = SupersedeRoundTrip.codec
codec_of progress = ProgressRoundTrip.codec
codec_of partial_result = PartialResultRoundTrip.codec
codec_of result_drop_reason = DropReasonRoundTrip.codec

abbrev pub parse_with_tail : (kind : Tailed) → List ℕ → Result (Content kind × List ℕ)
parse_with_tail control_request = Request.parse_with_diagnostics
parse_with_tail supersede = Supersede.parse_with_diagnostics
parse_with_tail progress = Progress.parse_with_body
parse_with_tail partial_result = PartialResult.parse_with_body
parse_with_tail result_drop_reason = DropReason.parse_with_diagnostics

abbrev pub to_vec_with_tail : (kind : Tailed) → Content kind → List ℕ → Result (List ℕ)
to_vec_with_tail control_request = Request.to_vec_with_diagnostics
to_vec_with_tail supersede = Supersede.to_vec_with_diagnostics
to_vec_with_tail progress = Progress.to_vec_with_body
to_vec_with_tail partial_result = PartialResult.to_vec_with_body
to_vec_with_tail result_drop_reason = DropReason.to_vec_with_diagnostics

-- Of each control message with a tail (the diagnostics of a control request, SUPERSEDE and
-- RESULT_DROP_REASON, the body of PROGRESS and PARTIAL_RESULT): a buffer of bytes is split into given
-- values of its fields, which fit their integer types, and the bytes behind them exactly when the two are
-- encoded as that buffer.
pub tails_parse_iff_encode :
    (kind : Tailed) (s d : List ℕ) (m : Content kind)
    → All IsByte s
    → (codec_of kind).IsInRange m
    → (parse_with_tail kind s ≡ ok (m, d)) ↔ (to_vec_with_tail kind m d ≡ ok s)
unfolding RequestRoundTrip.codec SupersedeRoundTrip.codec ProgressRoundTrip.codec
    PartialResultRoundTrip.codec DropReasonRoundTrip.codec
tails_parse_iff_encode control_request = RequestTail.control_request_diagnostics_iff
tails_parse_iff_encode supersede = SupersedeTail.supersede_diagnostics_iff
tails_parse_iff_encode progress = ProgressTail.progress_body_iff
tails_parse_iff_encode partial_result = PartialResultTail.partial_result_body_iff
tails_parse_iff_encode result_drop_reason = DropReasonTail.result_drop_reason_diagnostics_iff
