-- ===== src/Envelope/Compact/Accepted.antt =====
-- What the bytes of an accepted compact envelope are: the bytes that the encoder lays out for it.
use true_pad.Base.{
  ℕ, ◌+◌, ◌≡◌, inl, inr, refl, sym, ap, ap₂, subst, ◌∙◌, true, false, not, ◌&&◌, List, [], ◌∷◌,
  ◌++◌, Bool, Option, none, some, arith, Bytes, IsByte, IsBytes, length, take, drop, ◌==◌, ltb, leb,
  if◌then◌else◌, Bool-cases, Option-cases, max_safe,
}
use true_pad.Base.{take-append-drop, length-take_le, ==_iff, All-append_right, All-take, All-drop}
use true_pad.Direction.{Direction, a_to_b, b_to_a}
use true_pad.Tag.{max_ciphertext_bytes}
use true_pad.Codec.Hex.{bytes_to_hex}
use true_pad.Codec.Leb128.{UlebRead, found, write_uleb128, read_uleb128}
use true_pad.Codec.Leb128.Canonical.{read_uleb128_canonical}
use true_pad.Codec.Leb128
use true_pad.Envelope.{EnvelopeV2, is_hex32, is_counter, encode_envelope2}
use true_pad.Envelope.RoundTrip.{IsEnvelope}
use true_pad.Envelope.Canonical.{refused_not_decoded, passed, decoded-inj}
use true_pad.Envelope.Decode.{
  Envelope2Decode, decoded, refused, malformed_envelope, envelope_v1, oversize_ciphertext,
}
use true_pad.Envelope.Compact.{
  direction_byte, counter_bytes, compact_bytes, decode_text, decide, read_field, decode_body,
  decode_counters, decode_direction, decode_pair_id, decode_header,
}
use true_pad.Envelope.Compact.RoundTrip.{decide-IsEnvelope}

option_test :
    (b : Bool) (o : Option (List ℕ)) (t : List ℕ)
    → (if b then none else o) ≡ some t
    → (b ≡ false) × (o ≡ some t)
option_test true o t h = absurd (ground arith)
option_test false o t h = (refl, h)

pub IsEnvelope-encode_envelope2 :
    (e : EnvelopeV2) (t : List ℕ)
    → IsBytes e.ciphertext
    → IsBytes e.tag
    → encode_envelope2 e ≡ some t
    → IsEnvelope e
unfolding encode_envelope2 is_counter
IsEnvelope-encode_envelope2 e t hc ht h =
    let (p, h1) = option_test (not (is_hex32 e.pair_id)) _ t h in
    let (c, h2) =
      option_test
        (not (
          leb e.sequence max_safe
          && leb e.start_offset max_safe
          && leb e.ciphertext_length max_safe))
        _ t h1 in
    let (b, h3) = option_test (ltb max_ciphertext_bytes e.ciphertext_length) _ t h2 in
    let (l, h4) = option_test (not (length e.ciphertext == e.ciphertext_length)) _ t h3 in
    let (g, h5) = option_test (not (length e.tag == 16)) _ t h4 in
    record {
      pair_id = ground arith;
      sequence = ground arith;
      start_offset = ground arith;
      bounded = ground arith;
      declared = ground arith;
      ciphertext = hc;
      tag_length = ground arith;
      tag = ht;
    }

pub decide-inv :
    (c e : EnvelopeV2)
    → IsBytes c.ciphertext
    → IsBytes c.tag
    → decide c ≡ decoded e
    → (c ≡ e) × IsEnvelope c
unfolding decide
decide-inv c e hc ht h = elim (Option-cases (encode_envelope2 c)) [
  | inl n ↦ refused_not_decoded malformed_envelope e (ap decode_text (sym n) ∙ h)
  | inr (t, s) ↦
      let v = IsEnvelope-encode_envelope2 c t hc ht s in
      (decoded-inj c e (sym (decide_ok v) ∙ h), v)
]
  where
    decide_ok : IsEnvelope c → decode_text (encode_envelope2 c) ≡ decoded c
    decide_ok v = unfold decide in decide-IsEnvelope c v

decode_body-inv :
    (p : List ℕ) (d : Direction) (s o n : ℕ) (bytes : Bytes) (e : EnvelopeV2)
    → IsBytes bytes
    → decode_body p d s o n bytes ≡ decoded e
    → (e.pair_id ≡ p)
      × (e.direction ≡ d)
      × (e.sequence ≡ s)
      × (e.start_offset ≡ o)
      × (e.ciphertext_length ≡ n)
      × (bytes ≡ e.ciphertext ++ e.tag)
      × IsEnvelope e
unfolding decode_body
decode_body-inv p d s o n bytes e ok h =
    let (_, h1) = passed (ltb max_ciphertext_bytes n) oversize_ciphertext _ e h in
    let (_, h2) = passed (ltb (length bytes) (n + 16)) malformed_envelope _ e h1 in
    let (_, h3) = passed (ltb (n + 16) (length bytes)) malformed_envelope _ e h2 in
    let q = decide-inv _ e (All-take IsByte n bytes ok) (All-drop IsByte n bytes ok) h3 in
    subst
      (λ (x : EnvelopeV2).
        (x.pair_id ≡ p)
        × (x.direction ≡ d)
        × (x.sequence ≡ s)
        × (x.start_offset ≡ o)
        × (x.ciphertext_length ≡ n)
        × (bytes ≡ x.ciphertext ++ x.tag)
        × IsEnvelope x)
      q.0 (refl, refl, refl, refl, refl, sym (take-append-drop n bytes), q.1)

read_field-inv :
    (bytes : Bytes) (f : ℕ → Bytes → Envelope2Decode) (e : EnvelopeV2)
    → IsBytes bytes
    → read_field (read_uleb128 bytes) f ≡ decoded e
    → (v : ℕ) × (rest : Bytes) × (bytes ≡ write_uleb128 v ++ rest)
      × IsBytes rest
      × (f v rest ≡ decoded e)
read_field-inv bytes f e ok h = by_result (read_uleb128 bytes) refl h
  where
    by_result :
        (r : UlebRead)
        → read_uleb128 bytes ≡ r
        → read_field r f ≡ decoded e
        → (v : ℕ) × (rest : Bytes) × (bytes ≡ write_uleb128 v ++ rest)
          × IsBytes rest
          × (f v rest ≡ decoded e)
    by_result (found v rest) q k =
        let c = (read_uleb128_canonical bytes v rest ok q).0 in
        (v, rest, c, All-append_right IsByte (write_uleb128 v) rest (subst IsBytes c ok), k)
    by_result (Leb128.refused why) q k = refused_not_decoded malformed_envelope e k

decode_counters-inv :
    (p : List ℕ) (d : Direction) (bytes : Bytes) (e : EnvelopeV2)
    → IsBytes bytes
    → decode_counters p d bytes ≡ decoded e
    → (e.pair_id ≡ p) × (e.direction ≡ d) × (bytes ≡ counter_bytes e) × IsEnvelope e
unfolding decode_counters
decode_counters-inv p d bytes e ok h =
    let (s, b1, q1, ok1, h1) = read_field-inv bytes _ e ok h in
    let (o, b2, q2, ok2, h2) = read_field-inv b1 _ e ok1 h1 in
    let (n, b3, q3, ok3, h3) = read_field-inv b2 _ e ok2 h2 in
    let (ep, ed, es, eo, en, eb, v) = decode_body-inv p d s o n b3 e ok3 h3 in
    let e3 : b2 ≡ write_uleb128 e.ciphertext_length ++ (e.ciphertext ++ e.tag) =
      q3 ∙ ap₂ (λ x y. write_uleb128 x ++ y) (sym en) eb in
    let e2 : b1
        ≡ write_uleb128 e.start_offset
          ++ (write_uleb128 e.ciphertext_length ++ (e.ciphertext ++ e.tag)) =
      q2 ∙ ap₂ (λ x y. write_uleb128 x ++ y) (sym eo) e3 in
    (ep, ed, q1 ∙ ap₂ (λ x y. write_uleb128 x ++ y) (sym es) e2, v)

decode_direction-inv :
    (p : List ℕ) (bytes : Bytes) (e : EnvelopeV2)
    → IsBytes bytes
    → decode_direction p bytes ≡ decoded e
    → (e.pair_id ≡ p) × (bytes ≡ direction_byte e.direction ∷ counter_bytes e) × IsEnvelope e
unfolding decode_direction
decode_direction-inv p [] e ok h = refused_not_decoded malformed_envelope e h
decode_direction-inv p (b ∷ bytes) e ok h = elim (Bool-cases (b == 0)) [
  | inl z ↦
      let k : decode_counters p a_to_b bytes ≡ decoded e =
        subst
          (λ x.
            (if x
              then decode_counters p a_to_b bytes
              else (if b == 1 then decode_counters p b_to_a bytes else refused malformed_envelope))
            ≡ decoded e)
          z h in
      of_counters a_to_b ((==_iff b 0).0 z) k
  | inr z ↦
      let k : (if b == 1 then decode_counters p b_to_a bytes else refused malformed_envelope)
          ≡ decoded e =
        subst
          (λ x.
            (if x
              then decode_counters p a_to_b bytes
              else (if b == 1 then decode_counters p b_to_a bytes else refused malformed_envelope))
            ≡ decoded e)
          z h in
      elim (Bool-cases (b == 1)) [
        | inl y ↦ of_counters b_to_a ((==_iff b 1).0 y) (
            subst
              (λ x.
                (if x then decode_counters p b_to_a bytes else refused malformed_envelope)
                ≡ decoded e)
              y k)
        | inr n ↦ refused_not_decoded malformed_envelope e (
            subst
              (λ x.
                (if x then decode_counters p b_to_a bytes else refused malformed_envelope)
                ≡ decoded e)
              n k)
      ]
]
  where
    of_counters :
        (d : Direction)
        → b ≡ direction_byte d
        → decode_counters p d bytes ≡ decoded e
        → (e.pair_id ≡ p)
          × (b ∷ bytes ≡ direction_byte e.direction ∷ counter_bytes e)
          × IsEnvelope e
    of_counters d q k =
        let (ep, ed, eb, v) = decode_counters-inv p d bytes e ok.1 k in
        (ep, ap₂ (λ x y. x ∷ y) (q ∙ ap direction_byte (sym ed)) eb, v)

pub decode_header-inv :
    (bytes : Bytes) (e : EnvelopeV2)
    → IsBytes bytes
    → decode_header bytes ≡ decoded e
    → (p : Bytes) × (bytes ≡ compact_bytes p e)
      × (e.pair_id ≡ bytes_to_hex p)
      × (length p ≡ 16)
      × IsBytes p
      × IsEnvelope e
unfolding decode_header decode_pair_id
decode_header-inv [] e ok h = refused_not_decoded malformed_envelope e h
decode_header-inv (a ∷ []) e ok h = refused_not_decoded malformed_envelope e h
decode_header-inv (a ∷ b ∷ bytes) e ok h =
    let (va, h1) = passed (not (a == 1)) malformed_envelope _ e h in
    let (vb, h2) =
      passed (not (b == 2)) (if b == 1 then envelope_v1 else malformed_envelope) _ e h1 in
    let (l, h3) = passed (ltb (length bytes) 16) malformed_envelope _ e h2 in
    let (ep, eb, v) =
      decode_direction-inv (bytes_to_hex (take 16 bytes)) (drop 16 bytes) e
        (All-drop IsByte 16 bytes ok.1.1) h3 in
    let ea : a ≡ 1 = ground arith in
    let e2 : b ≡ 2 = ground arith in
    let et : bytes ≡ take 16 bytes ++ direction_byte e.direction ∷ counter_bytes e =
      sym (take-append-drop 16 bytes) ∙ ap (λ y. take 16 bytes ++ y) eb in
    (
      take 16 bytes,
      ap₂ (λ x y. x ∷ y) ea (ap₂ (λ x y. x ∷ y) e2 et),
      ep,
      length-take_le 16 bytes (ground arith),
      All-take IsByte 16 bytes ok.1.1,
      v,
    )
