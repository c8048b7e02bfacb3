-- ===== src/Records/Tests.antt =====
-- The laws of the codecs at one control request, with its diagnostics.
use nnrp_rs.Base.{ℕ, ◌≡◌, ◌↔◌, List, [], ◌∷◌, ◌++◌, All, arith}
use nnrp_rs.Error.{ok}
use nnrp_rs.Wire.Little.{IsByte}
use nnrp_rs.Control.Request.{
  ControlRequestMetadata, parse, write, parse_with_diagnostics, to_vec_with_diagnostics,
}
use nnrp_rs.Control.Request.RoundTrip.{InRange}
use nnrp_rs.Records.{Record, records_parse_iff_write}
use nnrp_rs.Records.Tails.{Tailed, tails_parse_iff_encode}

abbrev example : ControlRequestMetadata
example = record {
  operation_id = 514;
  control_sequence = 3;
  reason_code = 260;
  source_role = 1;
  flags = 1;
  diagnostic_bytes = 3;
}

abbrev example_bytes : List ℕ
example_bytes =
    2 ∷ 2 ∷ 0 ∷ 0 ∷ 0 ∷ 0 ∷ 0 ∷ 0 ∷ 3 ∷ 0 ∷ 0 ∷ 0 ∷ 0 ∷ 0 ∷ 0 ∷ 0 ∷ 4 ∷ 1 ∷ 1 ∷ 1 ∷ 3 ∷ 0 ∷ 0 ∷ 0
    ∷ 0 ∷ 0 ∷ 0 ∷ 0 ∷ 0 ∷ 0 ∷ 0 ∷ 0 ∷ []

example_bytes-IsByte : All IsByte example_bytes
example_bytes-IsByte = ground arith

example-InRange : InRange example
example-InRange = ground arith

abbrev example_diagnostics : List ℕ
example_diagnostics = 10 ∷ 20 ∷ 30 ∷ []

whole-IsByte : All IsByte (example_bytes ++ example_diagnostics)
whole-IsByte = ground arith

records_parse_iff_write_example :
    (parse example_bytes ≡ ok example) ↔ (write example example_bytes ≡ ok example_bytes)
unfolding nnrp_rs.Control.Request.RoundTrip.codec
records_parse_iff_write_example =
    records_parse_iff_write Record.control_request example_bytes example example_bytes-IsByte
      example-InRange

tails_parse_iff_encode_example :
    (parse_with_diagnostics (example_bytes ++ example_diagnostics)
      ≡ ok (example, example_diagnostics))
    ↔ (to_vec_with_diagnostics example example_diagnostics
        ≡ ok (example_bytes ++ example_diagnostics))
unfolding nnrp_rs.Control.Request.RoundTrip.codec
tails_parse_iff_encode_example =
    tails_parse_iff_encode Tailed.control_request (example_bytes ++ example_diagnostics)
      example_diagnostics example whole-IsByte example-InRange
