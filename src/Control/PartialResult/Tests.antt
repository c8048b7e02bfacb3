-- ===== src/Control/PartialResult/Tests.antt =====
-- The metadata of PartialResultMetadata on the wire, at one value.
use nnrp_rs.Base.{ℕ, ◌≡◌, refl, List, [], ◌∷◌, ◌++◌, replicate}
use nnrp_rs.Error.{ok}
use nnrp_rs.Wire.Little.{IsByte}
use nnrp_rs.Control.PartialResult.{
  PartialResultMetadata, parse_with_body, parse, write, copy_fields, read_fields,
}

abbrev example : PartialResultMetadata
example = record {
  operation_id = 514;
  result_sequence = 3;
  object_id = 260;
  delta_sequence = 517;
  body_bytes = 3;
  flags = 1;
}

abbrev example_bytes : List ℕ
example_bytes =
    2 ∷ 2 ∷ 0 ∷ 0 ∷ 0 ∷ 0 ∷ 0 ∷ 0 ∷ 3 ∷ 0 ∷ 0 ∷ 0 ∷ 0 ∷ 0 ∷ 0 ∷ 0 ∷ 4 ∷ 1 ∷ 0 ∷ 0 ∷ 0 ∷ 0 ∷ 0 ∷ 0
    ∷ 5 ∷ 2 ∷ 0 ∷ 0 ∷ 0 ∷ 0 ∷ 0 ∷ 0 ∷ 3 ∷ 0 ∷ 0 ∷ 0 ∷ 1 ∷ 0 ∷ 0 ∷ 0 ∷ []

example_written : write example (replicate 40 0xff) ≡ ok example_bytes
unfolding write copy_fields nnrp_rs.Wire.validate_mask
example_written = refl

example_parsed : parse example_bytes ≡ ok example
unfolding parse read_fields nnrp_rs.Wire.validate_mask nnrp_rs.Wire.read_u32
    nnrp_rs.Wire.Little.from_le nnrp_rs.Wire.read_u64
example_parsed = refl

abbrev example_body : List ℕ
example_body = 10 ∷ 20 ∷ 30 ∷ []

body_split : parse_with_body (example_bytes ++ example_body) ≡ ok (example, example_body)
unfolding parse_with_body parse read_fields nnrp_rs.Wire.validate_mask nnrp_rs.Wire.read_u32
    nnrp_rs.Wire.Little.from_le nnrp_rs.Wire.read_u64
body_split = refl
