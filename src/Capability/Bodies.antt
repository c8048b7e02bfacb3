-- ===== src/Capability/Bodies.antt =====
-- Bodies of capability tokens: what the loop of the decoder reads is what was written.
use nnrp_rs.Base.{
  ℕ, zero, suc, ◌+◌, ◌^◌, ◌<◌, ◌≤◌, ◌≡◌, refl, sym, ap, subst, ◌∙◌, inl, inr, List, [], ◌∷◌, Option,
  none, some, arith, length, All, length-append,
}
use nnrp_rs.Error.{ok, Result-cases}
use nnrp_rs.Wire.Little.{IsByte}
use nnrp_rs.Capability.Order.{bytes_cmp, Precedes, IsAscending, Ordering-cases}
use nnrp_rs.Capability.Entries.{IsToken, IsShort, entry, next_token-entry, next_token_sound}
use nnrp_rs.Capability.{
  Token, validate_capability_token, validate_all, body_capacity, write_tokens, next_token,
  check_order, decode_tokens,
}

-- The bytes of tokens in a body.
abbrev pub written : List Token → List ℕ
written [] = []
written (token ∷ tokens) = entry token (written tokens)

-- The tokens ascend, behind one that was read before.
abbrev pub AscendsFrom : Option Token → List Token → Type 0
AscendsFrom previous [] = Unit
AscendsFrom previous (token ∷ tokens) =
    (check_order previous token ≡ ok tt) × AscendsFrom (some token) tokens

check_order-Precedes : (x y : Token) → check_order (some x) y ≡ ok tt → Precedes x y
unfolding check_order
check_order-Precedes x y e = elim (Ordering-cases (bytes_cmp x y)) [
  | inl less ↦ less
  | inr (inl same) ↦ absurd (ground arith)
  | inr (inr more) ↦ absurd (ground arith)
]

pub AscendsFrom-IsAscending :
    (previous : Option Token) (tokens : List Token)
    → AscendsFrom previous tokens
    → IsAscending tokens
AscendsFrom-IsAscending previous [] up = tt
AscendsFrom-IsAscending previous (x ∷ []) up = tt
AscendsFrom-IsAscending previous (x ∷ y ∷ tokens) up =
    (check_order-Precedes x y up.1.0, AscendsFrom-IsAscending (some x) (y ∷ tokens) up.1)

AscendsFrom-of_IsAscending :
    (x : Token) (tokens : List Token) → IsAscending (x ∷ tokens) → AscendsFrom (some x) tokens
unfolding check_order
AscendsFrom-of_IsAscending x [] up = tt
AscendsFrom-of_IsAscending x (y ∷ tokens) up =
    let less = up.0 in (ground arith, AscendsFrom-of_IsAscending y tokens up.1)

pub AscendsFrom-none : (tokens : List Token) → IsAscending tokens → AscendsFrom none tokens
unfolding check_order
AscendsFrom-none [] up = tt
AscendsFrom-none (x ∷ tokens) up = (refl, AscendsFrom-of_IsAscending x tokens up)

pub validate_all_sound : (tokens : List Token) → validate_all tokens ≡ ok tt → All IsToken tokens
unfolding validate_all validate_capability_token
validate_all_sound [] e = tt
validate_all_sound (t ∷ tokens) e = (ground arith, validate_all_sound tokens (ground arith))

pub validate_all_complete : (tokens : List Token) → All IsToken tokens → validate_all tokens ≡ ok tt
unfolding validate_all validate_capability_token
validate_all_complete [] h = refl
validate_all_complete (t ∷ tokens) h =
    let first = h.0 in let rest = validate_all_complete tokens h.1 in ground arith

pub write_tokens_sound :
    (tokens : List Token) (body : List ℕ)
    → write_tokens tokens ≡ ok body
    → All IsShort tokens × (body ≡ written tokens)
unfolding write_tokens
write_tokens_sound [] body e = (tt, ground arith)
write_tokens_sound (t ∷ tokens) body e = elim (Result-cases (write_tokens tokens)) [
  | inl (rest, w) ↦
      let (short, same) = write_tokens_sound tokens rest w in ((ground arith, short), ground arith)
  | inr (x, failed) ↦ absurd (ground arith)
]

pub write_tokens_complete :
    (tokens : List Token) → All IsShort tokens → write_tokens tokens ≡ ok (written tokens)
unfolding write_tokens
write_tokens_complete [] h = refl
write_tokens_complete (t ∷ tokens) h =
    let first = h.0 in let rest = write_tokens_complete tokens h.1 in ground arith

-- The capacity is the length of what is written.
pub body_capacity-written :
    (total : ℕ) (tokens : List Token)
    → total + length (written tokens) < 2 ^ 64
    → body_capacity total tokens ≡ ok (total + length (written tokens))
unfolding body_capacity
body_capacity-written total [] h = ground arith
body_capacity-written total (t ∷ tokens) h =
    let size = length-append t (written tokens) in
    let rest = body_capacity-written (total + 2 + length t) tokens (omega arith) in ground arith

pub decode_tokens-written :
    (rounds : ℕ) (previous : Option Token) (tokens : List Token)
    → length (written tokens) ≤ rounds
    → All IsToken tokens
    → All IsShort tokens
    → AscendsFrom previous tokens
    → decode_tokens rounds (written tokens) previous ≡ ok tokens
unfolding decode_tokens
decode_tokens-written rounds previous [] enough h short up = refl
decode_tokens-written zero previous (t ∷ tokens) enough h short up = absurd (omega arith)
decode_tokens-written (suc rounds) previous (t ∷ tokens) enough h short up =
    let size = length-append t (written tokens) in
    let read = next_token-entry t (written tokens) h.0 short.0 in
    let rest = decode_tokens-written rounds (some t) tokens (omega arith) h.1 short.1 up.1 in
    let order = up.0 in rw (read, order, rest) refl

-- What a body that decodes looks like.
pub record IsBody (body : List ℕ) (previous : Option Token) (tokens : List Token) : Type 0 where
  pub same : body ≡ written tokens
  pub valid : All IsToken tokens
  pub short : All IsShort tokens
  pub ascends : AscendsFrom previous tokens

pub decode_tokens_sound :
    (rounds : ℕ) (body : List ℕ) (previous : Option Token) (tokens : List Token)
    → length body ≤ rounds
    → All IsByte body
    → decode_tokens rounds body previous ≡ ok tokens
    → IsBody body previous tokens
unfolding decode_tokens
decode_tokens_sound rounds [] previous [] enough byte e = record {
  same = refl;
  valid = tt;
  short = tt;
  ascends = tt;
}
decode_tokens_sound rounds [] previous (t ∷ tokens) enough byte e = absurd (cc)
decode_tokens_sound zero (b ∷ bs) previous tokens enough byte e = absurd (omega arith)
decode_tokens_sound (suc rounds) (b ∷ bs) previous tokens enough byte e =
    elim (Result-cases (next_token (b ∷ bs))) [
      | inr (x, failed) ↦ absurd (ground arith)
      | inl ((t, rest), read) ↦
          let first = next_token_sound (b ∷ bs) t rest byte read in
          let size = length-append t rest in
          let shorter : length rest ≤ rounds = omega (arith, ap length first.written) in
          elim (Result-cases (decode_tokens rounds rest (some t))) [
            | inr (x, failed) ↦ absurd (ground arith)
            | inl (ts, more) ↦
                let all : tokens ≡ t ∷ ts = ground arith in
                let order : check_order previous t ≡ ok tt = ground arith in
                let behind = decode_tokens_sound rounds rest (some t) ts shorter first.bytes more in
                subst (IsBody (b ∷ bs) previous) (sym all) (record {
                  same = first.written ∙ ap (entry t) behind.same;
                  valid = (first.valid, behind.valid);
                  short = (first.short, behind.short);
                  ascends = (order, behind.ascends);
                })
          ]
    ]
