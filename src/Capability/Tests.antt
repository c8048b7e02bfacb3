-- ===== src/Capability/Tests.antt =====
-- Bodies of capability tokens on concrete values.
use mathlib.Core.List.{Permᴰ}
use nnrp_rs.Base.{◌↔◌, ℕ, ◌≡◌, refl, List, [], ◌∷◌, arith, length, All}
use nnrp_rs.Error.{ok, err, invalid_capability_token_body, invalid_capability_token}
use nnrp_rs.Wire.Little.{IsByte}
use nnrp_rs.Capability.Order.{sort}
use nnrp_rs.Capability.{Token, encode_capability_tokens, decode_capability_tokens, is_utf8}
use nnrp_rs.Capability.RoundTrip.{decode-encode, encode-decode, encode_perm}

-- "b.1" and "a".
abbrev two_tokens : List Token
two_tokens = (98 ∷ 46 ∷ 49 ∷ []) ∷ (97 ∷ []) ∷ []

abbrev two_body : List ℕ
two_body = 1 ∷ 0 ∷ 97 ∷ 3 ∷ 0 ∷ 98 ∷ 46 ∷ 49 ∷ []

encoded : encode_capability_tokens two_tokens ≡ ok two_body
unfolding encode_capability_tokens sort nnrp_rs.Capability.validate_all
    nnrp_rs.Capability.Order.has_equal_pair nnrp_rs.Capability.Order.bytes_cmp
    nnrp_rs.Wire.Buffer.bytes_eq nnrp_rs.Capability.body_capacity nnrp_rs.Capability.write_tokens
encoded = refl

decoded : decode_capability_tokens two_body 2 ≡ ok ((97 ∷ []) ∷ (98 ∷ 46 ∷ 49 ∷ []) ∷ [])
unfolding decode_capability_tokens nnrp_rs.Capability.next_token nnrp_rs.Wire.Little.from_le
    nnrp_rs.Capability.is_utf8_from nnrp_rs.Capability.check_order
    nnrp_rs.Capability.Order.bytes_cmp
decoded = refl

repeated :
    encode_capability_tokens ((97 ∷ []) ∷ (97 ∷ []) ∷ [])
    ≡ err (invalid_capability_token_body "capability tokens must be unique")
unfolding encode_capability_tokens sort nnrp_rs.Capability.validate_all
    nnrp_rs.Capability.Order.has_equal_pair nnrp_rs.Capability.Order.bytes_cmp
    nnrp_rs.Wire.Buffer.bytes_eq
repeated = refl

unsorted :
    decode_capability_tokens (1 ∷ 0 ∷ 98 ∷ 1 ∷ 0 ∷ 97 ∷ []) 2
    ≡ err (invalid_capability_token_body "capability tokens must use canonical byte order")
unfolding decode_capability_tokens nnrp_rs.Capability.next_token nnrp_rs.Wire.Little.from_le
    nnrp_rs.Capability.is_utf8_from nnrp_rs.Capability.check_order
    nnrp_rs.Capability.Order.bytes_cmp
unsorted = refl

-- "é" in UTF-8, which is no token, and a first byte with nothing behind it.
not_token :
    decode_capability_tokens (2 ∷ 0 ∷ 195 ∷ 169 ∷ []) 1
    ≡ err (invalid_capability_token (195 ∷ 169 ∷ []))
unfolding decode_capability_tokens nnrp_rs.Capability.next_token nnrp_rs.Wire.Little.from_le
    nnrp_rs.Capability.is_utf8_from
not_token = refl

not_utf8 :
    decode_capability_tokens (1 ∷ 0 ∷ 195 ∷ []) 1
    ≡ err (invalid_capability_token_body "capability token must be ASCII")
unfolding decode_capability_tokens nnrp_rs.Capability.next_token nnrp_rs.Wire.Little.from_le
    nnrp_rs.Capability.is_utf8_from
not_utf8 = refl

decode-encode_example :
    (decode_capability_tokens two_body 2 ≡ ok (sort two_tokens)) ↔ (2 ≡ length two_tokens)
decode-encode_example = decode-encode two_tokens two_body 2 (omega arith) encoded

two_body-IsByte : All IsByte two_body
two_body-IsByte = ground arith

encode-decode_example :
    (encode_capability_tokens ((97 ∷ []) ∷ (98 ∷ 46 ∷ 49 ∷ []) ∷ []) ≡ ok two_body)
    × (length {A = Token} ((97 ∷ []) ∷ (98 ∷ 46 ∷ 49 ∷ []) ∷ []) ≡ 2)
encode-decode_example =
    encode-decode two_body 2 ((97 ∷ []) ∷ (98 ∷ 46 ∷ 49 ∷ []) ∷ []) two_body-IsByte (omega arith)
      decoded

encode_perm_example : encode_capability_tokens ((97 ∷ []) ∷ (98 ∷ 46 ∷ 49 ∷ []) ∷ []) ≡ ok two_body
encode_perm_example =
    encode_perm two_tokens ((97 ∷ []) ∷ (98 ∷ 46 ∷ 49 ∷ []) ∷ []) two_body (Permᴰ.swap refl refl)
      encoded
