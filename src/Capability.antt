-- ===== src/Capability.antt =====
-- crates/nnrp-core/src/capability.rs: lists of capability tokens as the body of a message. A token is
-- the list of its bytes.
pub mod Order
pub mod Reorder
pub mod Entries
pub mod Bodies
pub mod RoundTrip
mod Tests
use Prim.Native.Nat.Ordering.{lt, eq, gt}
use nnrp_rs.Base.{
  ℕ, zero, suc, ◌+◌, ◌^◌, compare, Ordering, Bool, true, false, not, ◌&&◌, ◌||◌, List, [], ◌∷◌,
  ◌++◌, Option, none, some, if◌then◌else◌, ◌==◌, ◌!=◌, ltb, leb, length, take, drop,
}
use nnrp_rs.Error.{
  Result, ok, err, ◌>>=◌, ◌>>◌, reject_if, invalid_capability_token, invalid_capability_token_body,
  message_length_overflow, declared_length_mismatch,
}
use nnrp_rs.Wire.Buffer.{bytes_eq}
use nnrp_rs.Wire.Little.{to_le, from_le}
use nnrp_rs.Capability.Order.{bytes_cmp, has_equal_pair, sort}

abbrev pub Token : Type 0
Token = List ℕ

-- `bytes().all(test)`.
pub all_bytes : (ℕ → Bool) → List ℕ → Bool
all_bytes test [] = true
all_bytes test (b ∷ bs) = test b && all_bytes test bs

abbrev pub between : (low high b : ℕ) → Bool
between low high b = leb low b && leb b high

-- A lower case letter, a digit, or one of `.`, `_` and `-`.
abbrev pub is_token_byte : ℕ → Bool
is_token_byte b = between 97 122 b || between 48 57 b || (b == 46) || (b == 95) || (b == 45)

abbrev pub is_ascii_byte : ℕ → Bool
is_ascii_byte b = ltb b 128

abbrev pub is_empty : List ℕ → Bool
is_empty [] = true
is_empty (b ∷ bs) = false

pub is_valid_token : Token → Bool
unfolding all_bytes
is_valid_token token =
    not (is_empty token) && all_bytes is_ascii_byte token && all_bytes is_token_byte token

pub validate_capability_token : Token → Result (Unit {0})
unfolding is_valid_token
validate_capability_token token =
    reject_if (not (is_valid_token token)) (invalid_capability_token token)

pub validate_all : List Token → Result (Unit {0})
unfolding validate_capability_token
validate_all [] = ok tt
validate_all (token ∷ tokens) = do validate_capability_token token; validate_all tokens

-- `usize::checked_add`.
abbrev pub checked_add : ℕ → ℕ → Result ℕ
checked_add a b = if ltb (a + b) (2 ^ 64) then ok (a + b) else err message_length_overflow

-- The `try_fold` that computes the capacity.
pub body_capacity : ℕ → List Token → Result ℕ
body_capacity total [] = ok total
body_capacity total (token ∷ tokens) = do
  with_length ← checked_add total 2
  next ← checked_add with_length (length token)
  body_capacity next tokens

-- The loop that fills the body.
pub write_tokens : List Token → Result (List ℕ)
write_tokens [] = ok []
write_tokens (token ∷ tokens) = do
  reject_if (leb (2 ^ 16) (length token)) message_length_overflow
  rest ← write_tokens tokens
  ok (to_le 2 (length token) ++ (token ++ rest))

pub encode_capability_tokens : List Token → Result (List ℕ)
encode_capability_tokens tokens = do
  validate_all tokens
  reject_if (has_equal_pair (sort tokens))
      (invalid_capability_token_body "capability tokens must be unique")
  capacity ← body_capacity 0 (sort tokens)
  write_tokens (sort tokens)

-- The ranges of the bytes that have to follow a first byte in well-formed UTF-8.
abbrev pub followers : ℕ → Option (List (ℕ × ℕ))
followers b =
    if ltb b 128
    then some []
    else if between 194 223 b
    then some ((128, 191) ∷ [])
    else if b == 224
    then some ((160, 191) ∷ (128, 191) ∷ [])
    else if b == 237
    then some ((128, 159) ∷ (128, 191) ∷ [])
    else if between 225 239 b
    then some ((128, 191) ∷ (128, 191) ∷ [])
    else if b == 240
    then some ((144, 191) ∷ (128, 191) ∷ (128, 191) ∷ [])
    else if between 241 243 b
    then some ((128, 191) ∷ (128, 191) ∷ (128, 191) ∷ [])
    else if b == 244
    then some ((128, 143) ∷ (128, 191) ∷ (128, 191) ∷ [])
    else none

-- Well-formed UTF-8, where bytes in the given ranges come first.
pub is_utf8_from : List (ℕ × ℕ) → List ℕ → Bool
is_utf8_from [] [] = true
is_utf8_from (range ∷ ranges) [] = false
is_utf8_from ((low, high) ∷ ranges) (b ∷ bs) = between low high b && is_utf8_from ranges bs
is_utf8_from [] (b ∷ bs) = elim (followers b) [
  | none ↦ false
  | some ranges ↦ is_utf8_from ranges bs
]

-- std::str::from_utf8, as a test.
abbrev pub is_utf8 : List ℕ → Bool
is_utf8 = is_utf8_from []

-- The first half of the loop's body: a token, and what stands behind it.
pub next_token : List ℕ → Result (Token × List ℕ)
unfolding validate_capability_token
next_token body = do
  reject_if (ltb (length body) 2)
      (invalid_capability_token_body "capability entry is missing its token length")
  let token_len = from_le (take 2 body)
  reject_if (token_len == 0)
      (invalid_capability_token_body "capability token length must be non-zero")
  let token = take token_len (drop 2 body)
  reject_if (ltb (length (drop 2 body)) token_len)
      (invalid_capability_token_body "capability token exceeds the declared body")
  reject_if (not (is_utf8 token)) (invalid_capability_token_body "capability token must be ASCII")
  validate_capability_token token
  ok (token, drop token_len (drop 2 body))

-- The `if let Some(previous)` of the loop.
pub check_order : Option Token → Token → Result (Unit {0})
check_order none token = ok tt
check_order (some previous) token = elim (bytes_cmp previous token) [
  | lt ↦ ok tt
  | eq ↦ err (invalid_capability_token_body "capability tokens must be unique")
  | gt ↦ err (invalid_capability_token_body "capability tokens must use canonical byte order")
]

-- The loop on what is left of the body, behind a token that was read before. Each round takes three
-- bytes at least, so that as many rounds as there are bytes are enough.
pub decode_tokens : (rounds : ℕ) → List ℕ → Option Token → Result (List Token)
decode_tokens rounds [] previous = ok []
decode_tokens zero (b ∷ bs) previous = ok []
decode_tokens (suc rounds) (b ∷ bs) previous = do
  (token, rest) ← next_token (b ∷ bs)
  check_order previous token
  tokens ← decode_tokens rounds rest (some token)
  ok (token ∷ tokens)

-- The announced count is a u16, so below 2 ^ 16.
pub decode_capability_tokens : List ℕ → (expected_count : ℕ) → Result (List Token)
unfolding decode_tokens
decode_capability_tokens body expected_count =
    if expected_count == 0
    then reject_if (not (is_empty body))
        (invalid_capability_token_body "zero capability count requires an empty body")
      >> ok []
    else (do
      reject_if (is_empty body)
          (invalid_capability_token_body "non-zero capability count requires a non-empty body")
      tokens ← decode_tokens (length body) body none
      reject_if (length tokens != expected_count)
          (declared_length_mismatch "capability_count" expected_count (length tokens))
      ok tokens)
