-- ===== src/Capability/RoundTrip.antt =====
-- Bodies of capability tokens: what was encoded decodes to the same tokens in their canonical order, and
-- a body that decodes is the encoding of what it decodes to.
use nnrp_rs.Base.{
  ℕ, zero, suc, ◌^◌, ◌<◌, ◌≡◌, ◌↔◌, refl, sym, ap, subst, ◌∙◌, false, List, [], ◌∷◌, none, arith,
  length, All,
}
use mathlib.Core.List.{Permᴰ}
use nnrp_rs.Error.{ok}
use nnrp_rs.Wire.Little.{IsByte}
use nnrp_rs.Capability.Reorder.{sort-perm}
use nnrp_rs.Capability.Order.{
  sort, has_equal_pair, IsAscending, sort-IsAscending, sort_ascends, has_equal_pair-IsAscending,
  All-sort, length-sort,
}
use nnrp_rs.Capability.Entries.{IsToken, IsShort}
use nnrp_rs.Capability.Bodies.{
  IsBody, written, AscendsFrom-IsAscending, AscendsFrom-none, validate_all_sound,
  validate_all_complete, write_tokens_sound, write_tokens_complete, body_capacity-written,
  decode_tokens-written, decode_tokens_sound,
}
use nnrp_rs.Capability.{
  Token, validate_all, write_tokens, encode_capability_tokens, decode_capability_tokens,
}

-- What `encode_capability_tokens` has checked when it succeeds.
record IsEncoded (tokens : List Token) (body : List ℕ) : Type 0 where
  valid : All IsToken tokens
  apart : has_equal_pair (sort tokens) ≡ false
  short : All IsShort (sort tokens)
  same : body ≡ written (sort tokens)

encode_sound :
    (tokens : List Token) (body : List ℕ)
    → encode_capability_tokens tokens ≡ ok body
    → IsEncoded tokens body
unfolding encode_capability_tokens
encode_sound tokens body e =
    let wrote : write_tokens (sort tokens) ≡ ok body = ground arith in
    let (short, same) = write_tokens_sound (sort tokens) body wrote in
    record {
      valid = validate_all_sound tokens (ground arith);
      apart = ground arith;
      short = short;
      same = same;
    }

encode_complete :
    (tokens : List Token)
    → All IsToken tokens
    → has_equal_pair (sort tokens) ≡ false
    → All IsShort (sort tokens)
    → length (written (sort tokens)) < 2 ^ 64
    → encode_capability_tokens tokens ≡ ok (written (sort tokens))
unfolding encode_capability_tokens
encode_complete tokens valid apart short small =
    let checked = validate_all_complete tokens valid in
    let wrote = write_tokens_complete (sort tokens) short in
    let capacity = body_capacity-written 0 (sort tokens) (omega arith) in ground arith

decode_written :
    (tokens : List Token)
    → All IsToken tokens
    → All IsShort tokens
    → IsAscending tokens
    → decode_capability_tokens (written tokens) (length tokens) ≡ ok tokens
unfolding decode_capability_tokens
decode_written [] valid short up = refl
decode_written (t ∷ tokens) valid short up =
    let all =
      decode_tokens-written (length (written (t ∷ tokens))) none (t ∷ tokens) (omega arith) valid
        short (AscendsFrom-none (t ∷ tokens) up) in
    ground arith

decode-length :
    (body : List ℕ) (n : ℕ) (tokens : List Token)
    → decode_capability_tokens body n ≡ ok tokens
    → n ≡ length tokens
unfolding decode_capability_tokens
decode-length [] zero [] e = refl
decode-length [] zero (t ∷ tokens) e = absurd (cc)
decode-length [] (suc n) tokens e = absurd (ground arith)
decode-length (b ∷ bs) zero tokens e = absurd (ground arith)
decode-length (b ∷ bs) (suc n) tokens e = ground arith

-- Tokens that were encoded decode, under an announced count that a u16 can hold, to the same tokens in
-- the order of their bytes exactly if the count is their number.
pub decode-encode :
    (tokens : List Token) (body : List ℕ) (expected_count : ℕ)
    → expected_count < 2 ^ 16
    → encode_capability_tokens tokens ≡ ok body
    → (decode_capability_tokens body expected_count ≡ ok (sort tokens))
      ↔ (expected_count ≡ length tokens)
decode-encode tokens body n counted e =
    let made = encode_sound tokens body e in
    (
      λ d. decode-length body n (sort tokens) d ∙ length-sort tokens,
      λ all.
          rw (made.same, all, sym (length-sort tokens))
            (decode_written (sort tokens) (All-sort IsToken tokens made.valid) made.short
              (sort_ascends tokens made.apart)),
    )

decode_sound :
    (body : List ℕ) (n : ℕ) (tokens : List Token)
    → All IsByte body
    → decode_capability_tokens body n ≡ ok tokens
    → IsBody body none tokens × (length tokens ≡ n)
unfolding decode_capability_tokens
decode_sound [] zero [] byte e =
    (record { same = refl; valid = tt; short = tt; ascends = tt }, refl)
decode_sound [] zero (t ∷ tokens) byte e = absurd (cc)
decode_sound [] (suc n) tokens byte e = absurd (ground arith)
decode_sound (b ∷ bs) zero tokens byte e = absurd (ground arith)
decode_sound (b ∷ bs) (suc n) tokens byte e = (
  decode_tokens_sound (length (b ∷ bs)) (b ∷ bs) none tokens (omega arith) byte (ground arith),
  ground arith,
)

-- A body that decodes is the only encoding of what it decodes to: it has as many tokens as were
-- announced, and encoding them gives it back, if it has fewer than 2 ^ 64 bytes.
pub encode-decode :
    (body : List ℕ) (n : ℕ) (tokens : List Token)
    → All IsByte body
    → length body < 2 ^ 64
    → decode_capability_tokens body n ≡ ok tokens
    → (encode_capability_tokens tokens ≡ ok body) × (length tokens ≡ n)
encode-decode body n tokens byte small e =
    let (read, count) = decode_sound body n tokens byte e in
    let up = AscendsFrom-IsAscending none tokens read.ascends in
    let sorted = sort-IsAscending tokens up in
    let apart = has_equal_pair-IsAscending tokens up in
    let made =
      encode_complete tokens read.valid (rw sorted apart) (rw sorted read.short)
        (rw (sorted, sym read.same) small) in
    (made ∙ ap ok (ap written sorted ∙ sym read.same), count)

All-perm : (P : Token → Type 0) (xs ys : List Token) → Permᴰ xs ys → All P xs → All P ys
All-perm P xs ys Permᴰ.nil ps = tt
All-perm P xs ys (Permᴰ.cons {a} {b} {l₁} {l₂} same p) ps =
    (subst P same ps.0, All-perm P l₁ l₂ p ps.1)
All-perm P xs ys (Permᴰ.swap first second) ps =
    (subst P second ps.1.0, (subst P first ps.0, ps.1.1))
All-perm P xs ys (Permᴰ.trans {l₂ = zs} p q) ps = All-perm P zs ys q (All-perm P xs zs p ps)

-- The order in which tokens are listed does not show in the body: any rearrangement of tokens that are
-- encoded is encoded as the same body.
pub encode_perm :
    (xs ys : List Token) (body : List ℕ)
    → Permᴰ xs ys
    → encode_capability_tokens xs ≡ ok body
    → encode_capability_tokens ys ≡ ok body
unfolding encode_capability_tokens
encode_perm xs ys body p e =
    let sorted = sort-perm xs ys p in
    let valid =
      validate_all_complete ys (All-perm IsToken xs ys p (encode_sound xs body e).valid) in
    let checked : validate_all xs ≡ ok tt =
      validate_all_complete xs (encode_sound xs body e).valid in
    ground arith
