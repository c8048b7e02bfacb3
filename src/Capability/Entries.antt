-- ===== src/Capability/Entries.antt =====
-- One token in a body: writing it, and reading it back.
use nnrp_rs.Base.{
  ℕ, ◌^◌, ◌<◌, ◌≤◌, ◌≡◌, ◌≢◌, refl, sym, ap, ap₂, subst, ◌∙◌, true, List, [], ◌∷◌, ◌++◌, arith,
  length, take, drop, All, length-append, take-append, drop-append, take-append-drop, length-take,
}
use nnrp_rs.Error.{ok}
use nnrp_rs.Wire.Little.{IsByte, to_le, from_le, from_le-to_le, to_le-from_le, from_le-lt, All-drop}
use nnrp_rs.Capability.{
  Token, all_bytes, is_ascii_byte, is_valid_token, is_utf8, is_utf8_from, validate_capability_token,
  next_token,
}

abbrev pub IsToken : Token → Type 0
IsToken token = is_valid_token token ≡ true

-- The length of the token fits the two bytes that precede it.
abbrev pub IsShort : Token → Type 0
IsShort token = length token < 2 ^ 16

-- The bytes of one token in a body.
abbrev pub entry : Token → List ℕ → List ℕ
entry token rest = to_le 2 (length token) ++ (token ++ rest)

is_utf8-ascii : (bs : List ℕ) → all_bytes is_ascii_byte bs ≡ true → is_utf8 bs ≡ true
unfolding all_bytes is_utf8_from
is_utf8-ascii [] h = refl
is_utf8-ascii (b ∷ bs) h = ground (arith, is_utf8-ascii bs)

IsToken-utf8 : (token : Token) → IsToken token → is_utf8 token ≡ true
unfolding is_valid_token
IsToken-utf8 token h = ground (arith, is_utf8-ascii token)

IsToken-length : (token : Token) → IsToken token → length token ≢ 0
unfolding is_valid_token
IsToken-length [] h = λ e. cc
IsToken-length (b ∷ token) h = λ e. absurd (omega arith)

-- The length that stands before a token.
entry_length :
    (token rest : List ℕ) → IsShort token → from_le (take 2 (entry token rest)) ≡ length token
entry_length token rest short = from_le-to_le 2 (length token) short

pub next_token-entry :
    (token rest : List ℕ)
    → IsToken token
    → IsShort token
    → next_token (entry token rest) ≡ ok (token, rest)
unfolding next_token validate_capability_token
next_token-entry token rest h short =
    let size = entry_length token rest short in
    let some_bytes = IsToken-length token h in
    let utf8 = IsToken-utf8 token h in
    let first = take-append token rest in
    let second = drop-append token rest in
    let whole = length-append token rest in rw size (rw (first, second) (ground arith))

-- What a token that was read looked like in the body.
pub record IsEntry (body token rest : List ℕ) : Type 0 where
  pub written : body ≡ entry token rest
  pub valid : IsToken token
  pub short : IsShort token
  pub bytes : All IsByte rest

pub next_token_sound :
    (body token rest : List ℕ)
    → All IsByte body
    → next_token body ≡ ok (token, rest)
    → IsEntry body token rest
unfolding next_token validate_capability_token
next_token_sound [] token rest byte e = absurd (cc)
next_token_sound (a ∷ []) token rest byte e = absurd (cc)
next_token_sound (a ∷ b ∷ bs) token rest byte e =
    let n : ℕ = from_le (a ∷ b ∷ []) in
    let small = from_le-lt (a ∷ b ∷ []) (byte.0, (byte.1.0, tt)) in
    let back = to_le-from_le (a ∷ b ∷ []) (byte.0, (byte.1.0, tt)) in
    let long : n ≤ length bs = ground arith in
    let is_token : token ≡ take n bs = ground arith in
    let is_rest : rest ≡ drop n bs = ground arith in
    let size : length token ≡ n = ap length is_token ∙ length-take n bs long in
    let split = take-append-drop n bs in
    record {
      written =
          ap₂ ◌++◌ (sym back ∙ ap (to_le 2) (sym size))
            (sym split ∙ ap₂ ◌++◌ (sym is_token) (sym is_rest));
      valid = subst IsToken (sym is_token) (ground arith);
      short = omega (arith, size, small);
      bytes = subst (All IsByte) (sym is_rest) (All-drop IsByte n bs byte.1.1);
    }
