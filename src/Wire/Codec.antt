-- ===== src/Wire/Codec.antt =====
-- What the codecs of messages promise, as an interface, and what follows from it: reading and writing
-- are inverse to each other, with and without a tail behind the metadata.
use nnrp_rs.Base.{
  ℕ, ◌≤◌, ◌≡◌, refl, sym, subst, ap, ◌∙◌, ◌↔◌, inl, inr, List, ◌++◌, arith, length, take, drop,
  replicate, All, String, take-append-drop, length-drop, length-append, drop-append,
  length-replicate, drop-replicate,
}
use mathlib.Core.List.{append-nil}
use nnrp_rs.Error.{Result, ok, ◌>>=◌, ◌>>◌, Result-cases}
use nnrp_rs.Wire.{require_declared_len, split_declared_tail}
use nnrp_rs.Wire.Little.{IsByte}

pub record Codec (Message : Type 0) : Type 1 where
  pub size : ℕ
  pub parse : List ℕ → Result Message
  pub write : Message → List ℕ → Result (List ℕ)
  -- The fields fit their integer types.
  pub IsInRange : Message → Type 0
  -- The fields pass the checks of `write`.
  pub IsKnown : Message → Type 0
  -- The bytes of a message.
  pub layout : Message → List ℕ
  pub layout_size : (m : Message) → length (layout m) ≡ size
  -- `write` succeeds on a buffer that is long enough, and changes its front.
  pub write_iff :
      (m : Message) (d b : List ℕ)
      → (write m d ≡ ok b) ↔ ((size ≤ length d) × IsKnown m × (b ≡ layout m ++ drop size d))
  -- `parse` reads the bytes of a message, whatever follows.
  pub parse_layout :
      (m : Message) (rest : List ℕ) → IsInRange m → IsKnown m → parse (layout m ++ rest) ≡ ok m
  -- What `parse` accepts is the bytes of the message.
  pub parse_sound :
      (s : List ℕ) (m : Message)
      → All IsByte s
      → parse s ≡ ok m
      → (size ≤ length s) × IsKnown m × (layout m ≡ take size s)

module _ {Message : Type 0} (codec : Codec Message) (s : List ℕ) (m : Message) (byte : All IsByte s)
    (fits : codec.IsInRange m) where
  layout-append-drop : codec.parse s ≡ ok m → codec.layout m ++ drop codec.size s ≡ s
  layout-append-drop e =
      let (long, known, front) = codec.parse_sound s m byte e in
      ap (λ x. x ++ drop codec.size s) front ∙ take-append-drop codec.size s

  -- A buffer parses to a message exactly when writing the message over it succeeds and changes nothing.
  pub parse_iff_write : (codec.parse s ≡ ok m) ↔ (codec.write m s ≡ ok s)
  parse_iff_write = (
    λ e.
        let (long, known, front) = codec.parse_sound s m byte e in
        (codec.write_iff m s s).1 (long, known, sym (layout-append-drop e)),
    λ e.
        let (long, known, same) = (codec.write_iff m s s).0 e in
        subst (λ x. codec.parse x ≡ ok m) (sym same) (codec.parse_layout m _ fits known),
  )

module _ {Message : Type 0} (codec : Codec Message) (declared : Message → ℕ) (label : String) where
  -- `parse_with_…`: the metadata, and what stands behind it.
  abbrev pub parse_with_tail : List ℕ → Result (Message × List ℕ)
  parse_with_tail source = do
    metadata ← codec.parse source
    tail ← split_declared_tail source codec.size (declared metadata) label
    ok (metadata, tail)

  -- `to_vec_with_…`.
  abbrev pub to_vec_with_tail : Message → List ℕ → Result (List ℕ)
  to_vec_with_tail m tail = do
    require_declared_len label (declared m) (length tail)
    bytes ← codec.write m (replicate codec.size 0)
    ok (bytes ++ tail)

  to_bytes_iff :
      (m : Message) (b : List ℕ)
      → (codec.write m (replicate codec.size 0) ≡ ok b) ↔ (codec.IsKnown m × (b ≡ codec.layout m))
  to_bytes_iff m b =
      let blank = drop-replicate {A = ℕ} codec.size 0 in
      let exact = ap (λ x. codec.layout m ++ x) blank ∙ append-nil (codec.layout m) in
      let w = codec.write_iff m (replicate codec.size 0) b in
      (
        λ e. let (long, known, same) = w.0 e in (known, same ∙ exact),
        λ (known, same).
            w.1 (omega (arith, length-replicate {A = ℕ} codec.size 0), known, same ∙ sym exact),
      )

  parse_with_tail-encode :
      (m : Message) (d : List ℕ)
      → codec.IsInRange m
      → codec.IsKnown m
      → length d ≡ declared m
      → parse_with_tail (codec.layout m ++ d) ≡ ok (m, d)
  parse_with_tail-encode m d fits known exact =
      let parsed = codec.parse_layout m d fits known in
      let size = codec.layout_size m in
      let long = length-append (codec.layout m) d in
      let tail : drop codec.size (codec.layout m ++ d) ≡ d =
        subst (λ k. drop k (codec.layout m ++ d) ≡ d) size (drop-append (codec.layout m) d) in
      ground arith

  -- A buffer is split into a message and its tail exactly when the two are encoded as that buffer.
  pub parse_with_tail_iff :
      (s d : List ℕ) (m : Message)
      → All IsByte s
      → codec.IsInRange m
      → (parse_with_tail s ≡ ok (m, d)) ↔ (to_vec_with_tail m d ≡ ok s)
  parse_with_tail_iff s d m byte fits = (
    λ e.
        let parsed : codec.parse s ≡ ok m = ground arith in
        let (long, known, front) = codec.parse_sound s m byte parsed in
        let bytes = (to_bytes_iff m (codec.layout m)).1 (known, refl) in
        let tail : d ≡ drop codec.size s = ground arith in
        let rest = length-drop codec.size s in
        let same : codec.layout m ++ d ≡ s =
          ap (λ x. codec.layout m ++ x) tail ∙ layout-append-drop codec s m byte fits parsed in
        let exact : length d ≡ declared m = ground arith in ground arith,
    λ e. elim (Result-cases (codec.write m (replicate codec.size 0))) [
      | inl (b, bytes) ↦
          let (known, same) = (to_bytes_iff m b).0 bytes in
          let whole : s ≡ b ++ d = ground arith in
          let exact : length d ≡ declared m = ground arith in
          subst (λ x. parse_with_tail x ≡ ok (m, d)) (sym (whole ∙ ap (λ x. x ++ d) same))
            (parse_with_tail-encode m d fits known exact)
      | inr (x, failed) ↦ absurd (ground arith)
    ],
  )
