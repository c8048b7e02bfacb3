-- ===== src/Wire/Fields.antt =====
-- The fixed layout of a message's metadata: fields of given widths, one after the other.
use nnrp_rs.Base.{
  ℕ, zero, suc, ◌+◌, ◌≤◌, ◌≡◌, refl, sym, ap, ap₂, ◌∙◌, List, [], ◌∷◌, ◌++◌, arith, length, take,
  drop, All, drop-drop, take-nil,
}
use native.Mathlib.Nat.{suc-add}
use nnrp_rs.Wire.{read_le}
use nnrp_rs.Wire.Buffer.{byte_at}
use nnrp_rs.Wire.Little.{IsByte, to_le, to_le-slice}

-- One field: a byte, or an integer of so many bytes.
pub data Field : Type 0 where
  octet : (value : ℕ) → Field
  word : (width value : ℕ) → Field

abbrev pub encode_field : Field → List ℕ
encode_field (octet value) = value ∷ []
encode_field (word width value) = to_le width value

abbrev pub encode : List Field → List ℕ
encode [] = []
encode (f ∷ fs) = encode_field f ++ encode fs

abbrev pub total : List ℕ → ℕ
total [] = 0
total (w ∷ ws) = w + total ws

-- The field of a width at an offset.
abbrev pub field_at : ℕ → ℕ → List ℕ → Field
field_at zero offset source = word 0 (read_le 0 source offset)
field_at (suc zero) offset source = octet (byte_at source offset)
field_at (suc (suc w)) offset source = word (suc (suc w)) (read_le (suc (suc w)) source offset)

-- The fields of these widths from an offset on.
abbrev pub fields_at : List ℕ → ℕ → List ℕ → List Field
fields_at [] offset source = []
fields_at (w ∷ ws) offset source = field_at w offset source ∷ fields_at ws (offset + w) source

byte_at-slice :
    (offset : ℕ) (s : List ℕ)
    → offset + 1 ≤ length s
    → byte_at s offset ∷ [] ≡ take 1 (drop offset s)
unfolding byte_at
byte_at-slice offset [] h = absurd (omega arith)
byte_at-slice zero (x ∷ s) h = refl
byte_at-slice (suc offset) (x ∷ s) h = byte_at-slice offset s (omega arith)

encode_field-field_at :
    (w offset : ℕ) (s : List ℕ)
    → All IsByte s
    → offset + w ≤ length s
    → encode_field (field_at w offset s) ≡ take w (drop offset s)
encode_field-field_at zero offset s byte long = refl
encode_field-field_at (suc zero) offset s byte long = byte_at-slice offset s long
encode_field-field_at (suc (suc w)) offset s byte long =
    to_le-slice (suc (suc w)) offset s byte long refl

take_split {ℓ} :
    {A : Type ℓ} (m n : ℕ) (xs : List A) → take m xs ++ take n (drop m xs) ≡ take (m + n) xs
take_split zero n xs = ap (λ (k : ℕ). take k xs) (omega arith)
take_split (suc m) n [] = rw suc-add (take-nil n)
take_split (suc m) n (x ∷ xs) = rw suc-add (ap (◌∷◌ x) (take_split m n xs))

-- Encoding the fields that stand at an offset gives back the bytes that were read.
pub encode-fields_at :
    (ws : List ℕ) (offset : ℕ) (s : List ℕ)
    → All IsByte s
    → offset + total ws ≤ length s
    → encode (fields_at ws offset s) ≡ take (total ws) (drop offset s)
encode-fields_at [] offset s byte long = refl
encode-fields_at (w ∷ ws) offset s byte long =
    ap₂ ◌++◌ (encode_field-field_at w offset s byte (omega arith)) (
      encode-fields_at ws (offset + w) s byte (omega arith)
      ∙ ap (take (total ws)) (sym (drop-drop offset w s)))
    ∙ take_split w (total ws) (drop offset s)
