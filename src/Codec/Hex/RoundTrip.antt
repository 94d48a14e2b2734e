-- ===== src/Codec/Hex/RoundTrip.antt =====
-- One accepted spelling for each byte string.
use true_pad.Base.{
  ℕ, ◌+◌, ◌*◌, ◌/◌, ◌%◌, ◌<◌, ◌≡◌, refl, ap, ap₂, true, List, [], ◌∷◌, ◌++◌, some, arith, Bytes,
  IsBytes, length, inl, inr, Bool-cases,
}
use true_pad.Codec.Hex.{
  hex_digit, to_string16, pad_start, bytes_to_hex, is_hex_digit, is_hex, hex_value, hex_pairs,
  hex_to_bytes,
}

-- The two characters of a byte.
byte_text :
    (b : ℕ)
    → b < 256
    → pad_start 2 b'0' (to_string16 b) ≡ hex_digit (b / 16) ∷ hex_digit (b % 16) ∷ []
unfolding pad_start to_string16 hex_digit
byte_text b h = ground arith

bytes_to_hex-cons :
    (b : ℕ) (bs : Bytes)
    → b < 256
    → bytes_to_hex (b ∷ bs) ≡ hex_digit (b / 16) ∷ hex_digit (b % 16) ∷ bytes_to_hex bs
unfolding bytes_to_hex
bytes_to_hex-cons b bs h = ap (λ t. t ++ bytes_to_hex bs) (byte_text b h)

digit_ok : (d : ℕ) → d < 16 → is_hex_digit (hex_digit d) ≡ true
unfolding is_hex_digit hex_digit
digit_ok d h = ground arith

digit_value : (d : ℕ) → d < 16 → hex_value (hex_digit d) ≡ d
unfolding hex_value hex_digit
digit_value d h = ground arith

pub is_hex-bytes_to_hex : (bs : Bytes) → IsBytes bs → is_hex (bytes_to_hex bs) ≡ true
unfolding is_hex
is_hex-bytes_to_hex [] h = unfold bytes_to_hex in refl
is_hex-bytes_to_hex (b ∷ bs) h =
    rw
      (bytes_to_hex-cons b bs h.0, digit_ok (b / 16) (omega arith), digit_ok (b % 16) (omega arith))
      (is_hex-bytes_to_hex bs h.1)

hex_pairs-bytes_to_hex : (bs : Bytes) → IsBytes bs → hex_pairs (bytes_to_hex bs) ≡ bs
unfolding hex_pairs
hex_pairs-bytes_to_hex [] h = unfold bytes_to_hex in refl
hex_pairs-bytes_to_hex (b ∷ bs) h =
    rw
      (
        bytes_to_hex-cons b bs h.0,
        digit_value (b / 16) (omega arith),
        digit_value (b % 16) (omega arith),
      )
      (ap₂ ◌∷◌ (omega arith) (hex_pairs-bytes_to_hex bs h.1))

-- Decoding an encoded byte string gives it back, for every byte string.
pub hex_to_bytes-bytes_to_hex : (bs : Bytes) → IsBytes bs → hex_to_bytes (bytes_to_hex bs) ≡ some bs
unfolding hex_to_bytes
hex_to_bytes-bytes_to_hex bs h = rw (is_hex-bytes_to_hex bs h, hex_pairs-bytes_to_hex bs h)

value-lt : (c : ℕ) → is_hex_digit c ≡ true → hex_value c < 16
unfolding is_hex_digit hex_value
value-lt c h = ground arith

digit-value : (c : ℕ) → is_hex_digit c ≡ true → hex_digit (hex_value c) ≡ c
unfolding is_hex_digit hex_value hex_digit
digit-value c h = ground arith

is_hex-cons :
    (a b : ℕ) (t : List ℕ)
    → is_hex (a ∷ b ∷ t) ≡ true
    → (is_hex_digit a ≡ true) × (is_hex_digit b ≡ true) × (is_hex t ≡ true)
unfolding is_hex
is_hex-cons a b t h = ground arith

hex_pairs-IsBytes : (t : List ℕ) → is_hex t ≡ true → IsBytes (hex_pairs t)
unfolding is_hex hex_pairs
hex_pairs-IsBytes [] h = tt
hex_pairs-IsBytes (a ∷ []) h = tt
hex_pairs-IsBytes (a ∷ b ∷ t) h =
    let (ha, hb, hr) = is_hex-cons a b t h in
    (omega (arith, value-lt a ha, value-lt b hb), hex_pairs-IsBytes t hr)

bytes_to_hex-hex_pairs : (t : List ℕ) → is_hex t ≡ true → bytes_to_hex (hex_pairs t) ≡ t
unfolding is_hex hex_pairs
bytes_to_hex-hex_pairs [] h = unfold bytes_to_hex in refl
bytes_to_hex-hex_pairs (a ∷ []) h = ground arith
bytes_to_hex-hex_pairs (a ∷ b ∷ t) h =
    let (ha, hb, hr) = is_hex-cons a b t h in
    let va = value-lt a ha in
    let vb = value-lt b hb in
    let hi : (hex_value a * 16 + hex_value b) / 16 ≡ hex_value a = omega arith in
    let lo : (hex_value a * 16 + hex_value b) % 16 ≡ hex_value b = omega arith in
    rw (bytes_to_hex-cons (hex_value a * 16 + hex_value b) (hex_pairs t) (omega arith), hi, lo)
      (ap₂ ◌∷◌ (digit-value a ha) (ap₂ ◌∷◌ (digit-value b hb) (bytes_to_hex-hex_pairs t hr)))

-- A text that decodes is the one spelling of what it decodes to, and that is a byte string.
pub hex_to_bytes_canonical :
    (t : List ℕ) (bs : Bytes) → hex_to_bytes t ≡ some bs → (bytes_to_hex bs ≡ t) × IsBytes bs
unfolding hex_to_bytes
hex_to_bytes_canonical t bs h = elim (Bool-cases (is_hex t)) [
  | inl good ↦
      let e : hex_pairs t ≡ bs = ground arith in
      rw (← e) (bytes_to_hex-hex_pairs t good, hex_pairs-IsBytes t good)
  | inr bad ↦ absurd (ground arith)
]

-- Two characters for each byte.
pub length-bytes_to_hex : (bs : Bytes) → IsBytes bs → length (bytes_to_hex bs) ≡ 2 * length bs
length-bytes_to_hex [] h = unfold bytes_to_hex in omega arith
length-bytes_to_hex (b ∷ bs) h =
    rw (bytes_to_hex-cons b bs h.0) (omega (arith, length-bytes_to_hex bs h.1))
