-- ===== src/Tag/Layout.antt =====
-- The buffer that `canonical_bytes` fills, as one expression.
use true_pad.Base.{length-append}
use true_pad.Base.Buffer.{
  set_bytes, le_bytes, zeros, set_bytes_gap, set_bytes_skip, zeros-add, length-zeros,
}
use true_pad.Tag.{
  CanonicalFields, canonical_bytes, u64le, domain_separator, direction_byte, padded_length,
  max_ciphertext_bytes, canonical_header_bytes,
}
use true_pad.Base.{
  ℕ, ◌+◌, ◌-◌, ◌≤◌, ◌≡◌, refl, sym, ap, ◌∙◌, true, false, [], ◌∷◌, ◌++◌, some, arith, Bytes,
  IsBytes, length, ◌==◌, ltb, max_safe,
}

-- What callers establish before they ask for the canonical bytes.
pub record IsValid (f : CanonicalFields) : Type 0 where
  pub pair_id_length : length f.pair_id ≡ 16
  pub pair_id_bytes : IsBytes f.pair_id
  pub sequence_safe : f.sequence ≤ max_safe
  pub start_safe : f.start_offset ≤ max_safe
  pub ciphertext_length : length f.ciphertext ≤ max_ciphertext_bytes
  pub ciphertext_bytes : IsBytes f.ciphertext

-- The counters and the reserved bytes, after the domain separator and the pair's name.
abbrev pub header_tail : CanonicalFields → Bytes
header_tail f =
    0x02
    ∷ direction_byte f.direction
    ∷ 0
    ∷ 0
    ∷ 0
    ∷ 0
    ∷ 0
    ∷ 0
    ∷ (le_bytes 8 f.sequence ++ (le_bytes 8 f.start_offset ++ le_bytes 8 (length f.ciphertext)))

abbrev pub padding : ℕ → Bytes
padding c = zeros (padded_length c - c)

abbrev pub layout : CanonicalFields → Bytes
layout f =
    domain_separator
    ++ (f.pair_id ++ (header_tail f ++ (f.ciphertext ++ padding (length f.ciphertext))))

module _ (f : CanonicalFields) (named : length f.pair_id ≡ 16) where
  past_front :
      (rest src : Bytes) (k : ℕ)
      → set_bytes (domain_separator ++ (f.pair_id ++ rest)) (32 + k) src
        ≡ domain_separator ++ (f.pair_id ++ set_bytes rest k src)
  past_front rest src k =
      set_bytes_skip (domain_separator ++ f.pair_id) rest src (32 + k) k
        (omega (arith, length-append domain_separator f.pair_id))

  blank_parts :
      (c : ℕ)
      → zeros (canonical_header_bytes + padded_length c)
        ≡ zeros 16 ++ (zeros 16 ++ (zeros 32 ++ (zeros c ++ padding c)))
  blank_parts c =
      zeros-add 64 (padded_length c) (64 + padded_length c) refl
      ∙ ap (λ t. zeros 64 ++ t) (zeros-add c (padded_length c - c) (padded_length c) (omega arith))

  abbrev put_counters : Bytes → ℕ → Bytes
  put_counters x at =
      let versioned =
        set_bytes (set_bytes x at (0x02 ∷ [])) (at + 1) (direction_byte f.direction ∷ []) in
      let sequenced = set_bytes versioned (at + 8) (le_bytes 8 f.sequence) in
      set_bytes (set_bytes sequenced (at + 16) (le_bytes 8 f.start_offset)) (at + 24)
        (le_bytes 8 (length f.ciphertext))

  counters_past :
      (rest : Bytes)
      → put_counters (domain_separator ++ (f.pair_id ++ rest)) 32
        ≡ domain_separator ++ (f.pair_id ++ put_counters rest 0)
  counters_past rest = rw (
    past_front rest (0x02 ∷ []) 0,
    past_front _ (direction_byte f.direction ∷ []) 1,
    past_front _ (le_bytes 8 f.sequence) 8,
    past_front _ (le_bytes 8 f.start_offset) 16,
    past_front _ (le_bytes 8 (length f.ciphertext)) 24,
  )

  counters_tail : (rest : Bytes) → put_counters (zeros 32 ++ rest) 0 ≡ header_tail f ++ rest
  unfolding set_bytes
  counters_tail rest = refl

  names :
      (rest : Bytes)
      → set_bytes (set_bytes (zeros 16 ++ (zeros 16 ++ rest)) 0 domain_separator) 16 f.pair_id
        ≡ domain_separator ++ (f.pair_id ++ rest)
  names rest =
      ap (λ x. set_bytes x 16 f.pair_id)
        (set_bytes_gap [] (zeros 16) (zeros 16 ++ rest) domain_separator 0 refl refl)
      ∙ set_bytes_gap domain_separator (zeros 16) rest f.pair_id 16 refl (sym named)

  body :
      (rest : Bytes)
      → set_bytes
          (domain_separator
            ++ (f.pair_id ++ (header_tail f ++ (zeros (length f.ciphertext) ++ rest))))
          canonical_header_bytes
          f.ciphertext
        ≡ domain_separator ++ (f.pair_id ++ (header_tail f ++ (f.ciphertext ++ rest)))
  body rest =
      past_front (header_tail f ++ (zeros (length f.ciphertext) ++ rest)) f.ciphertext 32
      ∙ ap (λ x. domain_separator ++ (f.pair_id ++ x))
          (set_bytes_gap (header_tail f) (zeros (length f.ciphertext)) rest f.ciphertext 32 refl
            (length-zeros (length f.ciphertext)))

  writes :
      let blank = zeros (canonical_header_bytes + padded_length (length f.ciphertext)) in
      let named = set_bytes (set_bytes blank 0 domain_separator) 16 f.pair_id in
      set_bytes (put_counters named 32) canonical_header_bytes f.ciphertext ≡ layout f
  writes =
      ap
        (λ x.
          set_bytes (put_counters (set_bytes (set_bytes x 0 domain_separator) 16 f.pair_id) 32)
            canonical_header_bytes f.ciphertext)
        (blank_parts (length f.ciphertext))
      ∙ ap (λ x. set_bytes (put_counters x 32) canonical_header_bytes f.ciphertext)
          (names (zeros 32 ++ (zeros (length f.ciphertext) ++ padding (length f.ciphertext))))
      ∙ ap (λ x. set_bytes x canonical_header_bytes f.ciphertext)
          (counters_past _
            ∙ ap (λ x. domain_separator ++ (f.pair_id ++ x))
                (counters_tail (zeros (length f.ciphertext) ++ padding (length f.ciphertext))))
      ∙ body (padding (length f.ciphertext))

-- The canonical bytes of valid fields, part by part.
pub canonical_bytes-layout : (f : CanonicalFields) → IsValid f → canonical_bytes f ≡ some (layout f)
unfolding canonical_bytes u64le
canonical_bytes-layout f v =
    let e = writes f v.pair_id_length in
    let a : (length f.pair_id == 16) ≡ true = ground arith in
    let b : ltb max_ciphertext_bytes (length f.ciphertext) ≡ false = ground arith in
    let c : ltb max_safe f.sequence ≡ false = ground arith in
    let d : ltb max_safe f.start_offset ≡ false = ground arith in
    let g : ltb max_safe (length f.ciphertext) ≡ false = ground arith in
    rw (a, b, c, d, g) (ap some e)

-- They are whole blocks, and the fixed header with the ciphertext padded to a block.
pub length-layout :
    (f : CanonicalFields) → IsValid f → length (layout f) ≡ 64 + padded_length (length f.ciphertext)
length-layout f v =
    let tail = header_tail f ++ (f.ciphertext ++ padding (length f.ciphertext)) in
    let inner = f.ciphertext ++ padding (length f.ciphertext) in
    omega (
      arith,
      length-append domain_separator (f.pair_id ++ tail),
      length-append f.pair_id tail,
      length-append (header_tail f) inner,
      length-append f.ciphertext (padding (length f.ciphertext)),
      length-zeros (padded_length (length f.ciphertext) - length f.ciphertext),
    )
