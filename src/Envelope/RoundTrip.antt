-- ===== src/Envelope/RoundTrip.antt =====
-- The strict parse of an envelope's text gives back the envelope that was printed.
use true_pad.Base.{
  ℕ, ◌*◌, ◌≤◌, ◌≡◌, refl, true, false, List, some, arith, Bytes, IsBytes, length, ◌==◌, ltb, leb,
  max_safe,
}
use true_pad.Base.{&&-right, le→leb}
use true_pad.Json.{text, number}
use true_pad.Tag.{max_ciphertext_bytes}
use true_pad.Direction.{Direction, a_to_b, b_to_a}
use true_pad.Codec.Hex.{bytes_to_hex}
use true_pad.Codec.Hex.RoundTrip.{
  is_hex-bytes_to_hex, hex_to_bytes-bytes_to_hex, length-bytes_to_hex,
}
use true_pad.Envelope.{
  EnvelopeV2, all_hex, is_hex32, is_counter, wire_text, encode_envelope2, direction_text,
}
use true_pad.Envelope.Decimal.{to_decimal}
use true_pad.Envelope.Decimal.RoundTrip.{is_canonical-to_decimal, decimal_value-to_decimal}
use true_pad.Envelope.Printed.{
  IsPrintable, wire_members, wire_scan, json_parse-wire_text, scan-wire_text, is_hex-all_hex,
}
use true_pad.Envelope.Decode.{
  decoded, lookup, includes, some_missing, some_extra, some_escaped, names_of, some_repeated,
  some_misspelled, decode_fields, decode_lengths, decode_hex, decode_members, decode_parsed,
  decode_envelope2, direction_value, counter_value,
}

-- The domains that `encodeEnvelope2` demands, with bytes in the two byte fields.
pub record IsEnvelope (e : EnvelopeV2) : Type 0 where
  pub pair_id : is_hex32 e.pair_id ≡ true
  pub sequence : e.sequence ≤ max_safe
  pub start_offset : e.start_offset ≤ max_safe
  pub bounded : e.ciphertext_length ≤ max_ciphertext_bytes
  pub declared : length e.ciphertext ≡ e.ciphertext_length
  pub ciphertext : IsBytes e.ciphertext
  pub tag_length : length e.tag ≡ 16
  pub tag : IsBytes e.tag

pub encode_envelope2-IsEnvelope :
    (e : EnvelopeV2) → IsEnvelope e → encode_envelope2 e ≡ some (wire_text e)
unfolding encode_envelope2 is_counter
encode_envelope2-IsEnvelope e h =
    let s : leb e.sequence max_safe ≡ true = le→leb e.sequence max_safe h.sequence in
    let o : leb e.start_offset max_safe ≡ true = le→leb e.start_offset max_safe h.start_offset in
    let c : leb e.ciphertext_length max_safe ≡ true =
      le→leb e.ciphertext_length max_safe (omega (arith, h.bounded)) in
    let b : ltb max_ciphertext_bytes e.ciphertext_length ≡ false = ground (arith, h.bounded) in
    let l : (length e.ciphertext == e.ciphertext_length) ≡ true = ground (arith, h.declared) in
    let t : (length e.tag == 16) ≡ true = ground (arith, h.tag_length) in
    rw (h.pair_id, s, o, c, b, l, t)

counter_value-to_decimal :
    (n : ℕ) → n ≤ max_safe → counter_value (some (number (to_decimal n))) ≡ some n
unfolding is_counter
counter_value-to_decimal n h =
    let s : leb n max_safe ≡ true = le→leb n max_safe h in
    rw (is_canonical-to_decimal n h, decimal_value-to_decimal n h, s)

direction_value-direction_text :
    (d : Direction) → direction_value (some (text (direction_text d))) ≡ some d
direction_value-direction_text a_to_b = refl
direction_value-direction_text b_to_a = refl

pub tag_is_hex32 : (bs : Bytes) → IsBytes bs → length bs ≡ 16 → is_hex32 (bytes_to_hex bs) ≡ true
unfolding is_hex32
tag_is_hex32 bs h l =
    let e : length (bytes_to_hex bs) ≡ 32 = omega (arith, length-bytes_to_hex bs h, l) in
    let t : (length (bytes_to_hex bs) == 32) ≡ true = ground (arith, e) in
    rw (t, is_hex-all_hex (bytes_to_hex bs) (is_hex-bytes_to_hex bs h))

decode_fields-wire_members :
    (e : EnvelopeV2) → IsEnvelope e → decode_fields (wire_members e) ≡ decoded e
unfolding decode_fields decode_lengths decode_hex lookup
decode_fields-wire_members e h =
    let b : ltb max_ciphertext_bytes e.ciphertext_length ≡ false = ground (arith, h.bounded) in
    let l : (length (bytes_to_hex e.ciphertext) == 2 * e.ciphertext_length) ≡ true =
      ground (arith, length-bytes_to_hex e.ciphertext h.ciphertext, h.declared) in
    rw (
      h.pair_id,
      direction_value-direction_text e.direction,
      counter_value-to_decimal e.sequence h.sequence,
      counter_value-to_decimal e.start_offset h.start_offset,
      counter_value-to_decimal e.ciphertext_length (omega (arith, h.bounded)),
      tag_is_hex32 e.tag h.tag h.tag_length,
      is_hex-bytes_to_hex e.ciphertext h.ciphertext,
      b,
      l,
      hex_to_bytes-bytes_to_hex e.ciphertext h.ciphertext,
      hex_to_bytes-bytes_to_hex e.tag h.tag,
    )

decode_members-wire :
    (e : EnvelopeV2) → IsEnvelope e → decode_members (wire_members e) (wire_scan e) ≡ decoded e
unfolding decode_members lookup includes some_missing some_extra some_escaped names_of some_repeated
    some_misspelled
decode_members-wire e h =
    rw
      (
        is_canonical-to_decimal e.sequence h.sequence,
        is_canonical-to_decimal e.start_offset h.start_offset,
        is_canonical-to_decimal e.ciphertext_length (omega (arith, h.bounded)),
      )
      (decode_fields-wire_members e h)

pub IsEnvelope-IsPrintable : (e : EnvelopeV2) → IsEnvelope e → IsPrintable e
unfolding is_hex32
IsEnvelope-IsPrintable e h = record {
  pair_id = &&-right (length e.pair_id == 32) (all_hex e.pair_id) h.pair_id;
  ciphertext = h.ciphertext;
  tag = h.tag;
  sequence = is_canonical-to_decimal e.sequence h.sequence;
  start_offset = is_canonical-to_decimal e.start_offset h.start_offset;
  ciphertext_length = is_canonical-to_decimal e.ciphertext_length (omega (arith, h.bounded));
}

pub decode_envelope2-wire_text :
    (e : EnvelopeV2) → IsEnvelope e → decode_envelope2 (wire_text e) ≡ decoded e
unfolding decode_envelope2 decode_parsed
decode_envelope2-wire_text e h =
    let p = IsEnvelope-IsPrintable e h in
    rw (json_parse-wire_text e p, scan-wire_text e p) (decode_members-wire e h)

-- An envelope within the domains of `encodeEnvelope2` is printed, and the strict parse of the text
-- gives the same envelope back.
pub decode_envelope2-encode_envelope2 :
    (e : EnvelopeV2)
    → IsEnvelope e
    → (t : List ℕ) × (encode_envelope2 e ≡ some t) × (decode_envelope2 t ≡ decoded e)
decode_envelope2-encode_envelope2 e h =
    (wire_text e, encode_envelope2-IsEnvelope e h, decode_envelope2-wire_text e h)
