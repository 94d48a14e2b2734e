-- ===== src/Envelope/Compact/RoundTrip.antt =====
-- The compact decoder gives back the envelope that the compact encoder spelled.
use true_pad.Base.{
  ℕ, zero, suc, ◌+◌, ◌*◌, ◌≤◌, ◌≡◌, refl, sym, ap, ap₂, ◌∙◌, true, false, List, [], ◌∷◌, ◌++◌, some,
  arith, Bytes, IsByte, IsBytes, length, ◌==◌, ltb,
}
use true_pad.Base.{length-append, take-append, drop-append, same_self, &&-right, All-append}
use true_pad.Direction.{Direction, a_to_b, b_to_a}
use true_pad.Tag.{max_ciphertext_bytes}
use true_pad.Codec.Hex.{hex_pairs, bytes_to_hex, is_hex, hex_to_bytes}
use true_pad.Codec.Hex.RoundTrip.{hex_to_bytes_canonical, length-bytes_to_hex}
use true_pad.Codec.Base64.{to_base64_url}
use true_pad.Codec.Base64.RoundTrip.{from_base64_url-to_base64_url}
use true_pad.Codec.Leb128.{write_uleb128}
use true_pad.Codec.Leb128.RoundTrip.{read_uleb128-write_uleb128}
use true_pad.Envelope.{EnvelopeV2, all_hex, is_hex32}
use true_pad.Envelope.RoundTrip.{
  IsEnvelope, encode_envelope2-IsEnvelope, decode_envelope2-wire_text,
}
use true_pad.Envelope.Decode.{decoded}
use true_pad.Envelope.Compact.{
  compact_prefix, max_compact_chars, trim, direction_byte, counter_bytes, compact_bytes,
  encode_compact_envelope2, decode_text, decide, decode_body, decode_counters, decode_direction,
  decode_pair_id, decode_header, decode_payload, decode_trimmed, decode_compact_envelope2,
}
use true_pad.Envelope.Compact.Payload.{
  trim-ink, includes_unit-ink, to_base64_url-IsInk, length-to_base64_url, length-write_uleb128,
  write_uleb128-IsBytes, to_base64_url-nonempty,
}

pub decide-IsEnvelope : (e : EnvelopeV2) → IsEnvelope e → decide e ≡ decoded e
unfolding decide
decide-IsEnvelope e h =
    ap decode_text (encode_envelope2-IsEnvelope e h) ∙ decode_envelope2-wire_text e h

decode_body-IsEnvelope :
    (e : EnvelopeV2)
    → IsEnvelope e
    → decode_body e.pair_id e.direction e.sequence e.start_offset e.ciphertext_length
        (e.ciphertext ++ e.tag)
      ≡ decoded e
unfolding decode_body
decode_body-IsEnvelope e h =
    let l : length (e.ciphertext ++ e.tag) ≡ e.ciphertext_length + 16 =
      length-append e.ciphertext e.tag ∙ ap₂ (λ a b. a + b) h.declared h.tag_length in
    let b : ltb max_ciphertext_bytes e.ciphertext_length ≡ false = ground (arith, h.bounded) in
    let s : ltb (e.ciphertext_length + 16) (e.ciphertext_length + 16) ≡ false = ground arith in
    rw
      (
        l,
        b,
        s,
        take-append e.ciphertext_length e.ciphertext e.tag (sym h.declared),
        drop-append e.ciphertext_length e.ciphertext e.tag (sym h.declared),
      )
      (decide-IsEnvelope e h)

decode_counters-IsEnvelope :
    (e : EnvelopeV2)
    → IsEnvelope e
    → decode_counters e.pair_id e.direction (counter_bytes e) ≡ decoded e
unfolding decode_counters
decode_counters-IsEnvelope e h =
    rw
      (
        read_uleb128-write_uleb128 e.sequence
            (write_uleb128 e.start_offset
              ++ (write_uleb128 e.ciphertext_length ++ (e.ciphertext ++ e.tag)))
            h.sequence,
        read_uleb128-write_uleb128 e.start_offset
            (write_uleb128 e.ciphertext_length ++ (e.ciphertext ++ e.tag)) h.start_offset,
        read_uleb128-write_uleb128 e.ciphertext_length (e.ciphertext ++ e.tag)
            (omega (arith, h.bounded)),
      )
      (decode_body-IsEnvelope e h)

decode_direction-byte :
    (p : List ℕ) (d : Direction) (bytes : Bytes)
    → decode_direction p (direction_byte d ∷ bytes) ≡ decode_counters p d bytes
unfolding decode_direction
decode_direction-byte p a_to_b bytes = refl
decode_direction-byte p b_to_a bytes = refl

pub decode_header-compact_bytes :
    (e : EnvelopeV2) (pair_id : Bytes)
    → IsEnvelope e
    → bytes_to_hex pair_id ≡ e.pair_id
    → length pair_id ≡ 16
    → decode_header (compact_bytes pair_id e) ≡ decoded e
unfolding decode_header decode_pair_id
decode_header-compact_bytes e pair_id h hex l =
    let tail = direction_byte e.direction ∷ counter_bytes e in
    let b : ltb (length (pair_id ++ tail)) 16 ≡ false =
      ground (arith, length-append pair_id tail) in
    rw (b, take-append 16 pair_id tail (sym l), drop-append 16 pair_id tail (sym l), hex)
      (decode_direction-byte e.pair_id e.direction _ ∙ decode_counters-IsEnvelope e h)

pub length-compact_bytes :
    (e : EnvelopeV2) (pair_id : Bytes)
    → IsEnvelope e
    → length pair_id ≡ 16
    → length (compact_bytes pair_id e) ≤ max_ciphertext_bytes + 62
length-compact_bytes e pair_id h l =
    let body = e.ciphertext ++ e.tag in
    let w3 = write_uleb128 e.ciphertext_length ++ body in
    let w2 = write_uleb128 e.start_offset ++ w3 in
    let w1 = write_uleb128 e.sequence ++ w2 in
    omega (
      arith,
      length-append pair_id (direction_byte e.direction ∷ w1),
      length-append (write_uleb128 e.sequence) w2,
      length-append (write_uleb128 e.start_offset) w3,
      length-append (write_uleb128 e.ciphertext_length) body,
      length-append e.ciphertext e.tag,
      length-write_uleb128 8 e.sequence (omega (arith, h.sequence)) (omega arith),
      length-write_uleb128 8 e.start_offset (omega (arith, h.start_offset)) (omega arith),
      length-write_uleb128 8 e.ciphertext_length (omega (arith, h.bounded)) (omega arith),
      l,
      h.tag_length,
      h.declared,
      h.bounded,
    )

is_hex-even : (n : ℕ) (t : List ℕ) → all_hex t ≡ true → length t ≡ 2 * n → is_hex t ≡ true
unfolding is_hex all_hex
is_hex-even n [] h l = refl
is_hex-even zero (a ∷ t) h l = ground arith
is_hex-even (suc n) (a ∷ []) h l = absurd (omega (arith, l))
is_hex-even (suc n) (a ∷ b ∷ t) h l =
    let r : is_hex t ≡ true = is_hex-even n t (ground arith) (omega (arith, l)) in ground (arith, r)

-- The sixteen bytes of a pair id within its domain.
pub pair_id_bytes :
    (t : List ℕ)
    → is_hex32 t ≡ true
    → (bs : Bytes) × (hex_to_bytes t ≡ some bs)
      × (bytes_to_hex bs ≡ t)
      × IsBytes bs
      × (length bs ≡ 16)
unfolding is_hex32 hex_to_bytes
pair_id_bytes t h =
    let l : length t ≡ 32 = ground arith in
    let x : is_hex t ≡ true = is_hex-even 16 t (&&-right (length t == 32) (all_hex t) h) l in
    let e : hex_to_bytes t ≡ some (hex_pairs t) = rw (x) in
    let c = hex_to_bytes_canonical t (hex_pairs t) e in
    (
      hex_pairs t,
      e,
      c.0,
      c.1,
      omega (arith, length-bytes_to_hex (hex_pairs t) c.1, ap length c.0, l),
    )

direction_byte-IsByte : (d : Direction) → IsByte (direction_byte d)
direction_byte-IsByte a_to_b = omega arith
direction_byte-IsByte b_to_a = omega arith

pub compact_bytes-IsBytes :
    (e : EnvelopeV2) (pair_id : Bytes)
    → IsEnvelope e
    → IsBytes pair_id
    → IsBytes (compact_bytes pair_id e)
compact_bytes-IsBytes e pair_id h ok =
    let all = All-append IsByte in
    let b1 = all e.ciphertext e.tag h.ciphertext h.tag in
    let b2 =
      all (write_uleb128 e.ciphertext_length) (e.ciphertext ++ e.tag)
        (write_uleb128-IsBytes e.ciphertext_length) b1 in
    let b3 = all (write_uleb128 e.start_offset) _ (write_uleb128-IsBytes e.start_offset) b2 in
    let b4 = all (write_uleb128 e.sequence) _ (write_uleb128-IsBytes e.sequence) b3 in
    (omega arith, (omega arith, all pair_id _ ok (direction_byte-IsByte e.direction, b4)))

pub decode_trimmed-payload :
    (bs : Bytes)
    → IsBytes bs
    → 1 ≤ length bs
    → length bs ≤ max_ciphertext_bytes + 62
    → decode_trimmed (compact_prefix ++ to_base64_url bs) ≡ decode_header bs
unfolding decode_trimmed decode_payload
decode_trimmed-payload bs ok low high =
    let t = to_base64_url bs in
    let n = length-to_base64_url bs in
    let f : ltb max_compact_chars (suc (suc (suc (suc (length t))))) ≡ false = ground (arith, n) in
    let m : (length t == 0) ≡ false = ground (arith, to_base64_url-nonempty bs low) in
    rw (
      f,
      m,
      includes_unit-ink t (to_base64_url-IsInk bs),
      from_base64_url-to_base64_url bs ok,
      same_self t,
    )

pub trim-compact :
    (bs : Bytes) → trim (compact_prefix ++ to_base64_url bs) ≡ compact_prefix ++ to_base64_url bs
trim-compact bs =
    trim-ink (compact_prefix ++ to_base64_url bs)
      ((refl, refl), ((refl, refl), ((refl, refl), ((refl, refl), to_base64_url-IsInk bs))))

-- The compact spelling, as the payload's bytes.
pub compact_spelling :
    (e : EnvelopeV2)
    → IsEnvelope e
    → (bs : Bytes) × (encode_compact_envelope2 e ≡ some (compact_prefix ++ to_base64_url bs))
      × (decode_trimmed (compact_prefix ++ to_base64_url bs) ≡ decoded e)
unfolding encode_compact_envelope2
compact_spelling e h =
    let p = pair_id_bytes e.pair_id h.pair_id in
    let bs = compact_bytes p.0 e in
    let l : (length p.0 == 16) ≡ true = ground (arith, p.4) in
    (
      bs,
      rw (encode_envelope2-IsEnvelope e h, p.1, l) refl,
      decode_trimmed-payload bs (compact_bytes-IsBytes e p.0 h p.3) (omega arith)
            (length-compact_bytes e p.0 h p.4)
          ∙ decode_header-compact_bytes e p.0 h p.2 p.4,
    )

-- An envelope within its domains has a compact spelling, and the compact decoder gives the same
-- envelope back from it.
pub decode_compact_envelope2-encode_compact_envelope2 :
    (e : EnvelopeV2)
    → IsEnvelope e
    → (t : List ℕ) × (encode_compact_envelope2 e ≡ some t)
      × (decode_compact_envelope2 t ≡ decoded e)
unfolding decode_compact_envelope2
decode_compact_envelope2-encode_compact_envelope2 e h =
    let (bs, enc, dec) = compact_spelling e h in
    (compact_prefix ++ to_base64_url bs, enc, ap decode_trimmed (trim-compact bs) ∙ dec)
