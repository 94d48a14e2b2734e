-- ===== src/Envelope/Tests.antt =====
-- The theorems on envelopes, on a small envelope, and texts that the decoders refuse.
use true_pad.Base.{ℕ, ◌≡◌, refl, List, [], ◌∷◌, some, arith, replicate, codes}
use true_pad.Base.{every_byte-IsBytes}
use true_pad.Direction.{a_to_b}
use true_pad.Codec.Hex.{
  bytes_to_hex, to_string16, hex_digit, pad_start, is_hex, hex_to_bytes, hex_pairs, hex_value,
  is_hex_digit,
}
use true_pad.Codec.Base64.{
  find_from, byte0, byte1, byte2, to_base64_url, from_base64_url, from_groups, b64_char, b64_index,
}
use true_pad.Codec.Leb128.{read_uleb128, read_groups, last_group}
use true_pad.Json.{parse_from, json_parse}
use true_pad.Envelope.{EnvelopeV2, all_hex, is_hex32, is_counter, encode_envelope2}
use true_pad.Envelope.Decimal.{is_canonical, all_digits, decimal_value, value_from}
use true_pad.Envelope.RoundTrip.{IsEnvelope, decode_envelope2-encode_envelope2}
use true_pad.Envelope.Canonical.{decode_envelope2-IsEnvelope}
use true_pad.Envelope.Scan.{scan_from, scan_top_level_strings}
use true_pad.Envelope.Decode.{
  decoded, refused, envelope_v1, malformed_envelope, lookup, includes, some_missing, some_extra,
  some_escaped, names_of, some_repeated, some_misspelled, decode_hex, decode_lengths, decode_fields,
  decode_members, decode_parsed, decode_envelope2,
}
use true_pad.Envelope.Compact.{
  encode_compact_envelope2, decode_compact_envelope2, decode_envelope_transport2, trim, trim_start,
  trim_end, decode_body, decode_counters, decode_direction, decode_pair_id, decode_header,
  decode_payload, decode_trimmed, includes_unit,
}
use true_pad.Envelope.Compact.RoundTrip.{decide-IsEnvelope}
use true_pad.Envelope.Compact.Canonical.{decode_compact_envelope2_canonical}
use true_pad.Envelope.Compact.Transport.{
  decode_envelope_transport2-encode, decode_envelope_transport2-IsEnvelope, transport-json,
}
use true_pad.Envelope.Compact.{is_compact_envelope2}
use true_pad.Base.{◌∙◌, false}

abbrev small : EnvelopeV2
small = record {
  pair_id = codes "000102030405060708090a0b0c0d0eff";
  direction = a_to_b;
  sequence = 7;
  start_offset = 300;
  ciphertext_length = 2;
  ciphertext = 161 ∷ 10 ∷ [];
  tag = replicate 16 255;
}

small-IsEnvelope : IsEnvelope small
unfolding is_hex32 all_hex is_hex_digit
small-IsEnvelope = record {
  pair_id = refl;
  sequence = omega arith;
  start_offset = omega arith;
  bounded = omega arith;
  declared = refl;
  ciphertext = every_byte-IsBytes small.ciphertext refl;
  tag_length = refl;
  tag = every_byte-IsBytes small.tag refl;
}

-- White space between tokens and another order of the keys are accepted.
abbrev spaced : List ℕ
spaced =
    codes
      " {\"tag\":\"ffffffffffffffffffffffffffffffff\", \"sequence\": 7 ,\"startOffset\":300,\"ciphertextLength\":2,\"ciphertext\":\"a10a\",\"direction\":\"A->B\",\"pairId\":\"000102030405060708090a0b0c0d0eff\",\"formatVersion\":2}"

spaced-reads : decode_envelope2 spaced ≡ decoded small
unfolding decode_envelope2 decode_parsed json_parse parse_from scan_top_level_strings scan_from
    decode_members decode_fields decode_lengths decode_hex lookup includes some_missing some_extra
    some_escaped names_of some_repeated some_misspelled is_hex32 all_hex is_hex_digit is_counter
    is_canonical all_digits decimal_value value_from is_hex hex_to_bytes hex_pairs hex_value
spaced-reads = refl

v1-refused :
    decode_envelope2 (codes "{\"label\":\"x\",\"startOffset\":0,\"consumed\":1,\"payload\":\"\"}")
    ≡ refused envelope_v1
unfolding decode_envelope2 decode_parsed json_parse parse_from scan_top_level_strings scan_from
    decode_members lookup
v1-refused = refl

escaped-refused : decode_envelope2 (codes "{\"\\u0074ag\":\"f\"}") ≡ refused malformed_envelope
unfolding decode_envelope2 decode_parsed json_parse parse_from scan_top_level_strings scan_from
    decode_members lookup some_escaped
escaped-refused = refl

decode_envelope2-encode_envelope2_example :
    (t : List ℕ) × (encode_envelope2 small ≡ some t) × (decode_envelope2 t ≡ decoded small)
decode_envelope2-encode_envelope2_example = decode_envelope2-encode_envelope2 small small-IsEnvelope

decode_envelope2-IsEnvelope_example : IsEnvelope small
decode_envelope2-IsEnvelope_example = decode_envelope2-IsEnvelope spaced small spaced-reads

-- The compact text of `small`, with white space around it.
abbrev compact : List ℕ
compact = codes " TP2:AQIAAQIDBAUGBwgJCgsMDQ7_AAesAgKhCv____________________8\n"

compact-reads : decode_compact_envelope2 compact ≡ decoded small
unfolding decode_compact_envelope2 trim trim_start trim_end decode_trimmed includes_unit
    from_base64_url from_groups b64_index find_from byte0 byte1 byte2 decode_payload to_base64_url
    b64_char decode_header decode_pair_id decode_direction decode_counters decode_body read_uleb128
    read_groups last_group bytes_to_hex to_string16 hex_digit pad_start
compact-reads = decide-IsEnvelope small small-IsEnvelope

decode_compact_envelope2_canonical_example : encode_compact_envelope2 small ≡ some (trim compact)
decode_compact_envelope2_canonical_example =
    decode_compact_envelope2_canonical compact small compact-reads

decode_envelope_transport2-encode_example :
    (json : List ℕ) × (text : List ℕ) × (encode_envelope2 small ≡ some json)
    × (encode_compact_envelope2 small ≡ some text)
    × (decode_envelope_transport2 json ≡ decoded small)
    × (decode_envelope_transport2 text ≡ decoded small)
decode_envelope_transport2-encode_example = decode_envelope_transport2-encode small small-IsEnvelope

spaced-not_compact : is_compact_envelope2 spaced ≡ false
unfolding is_compact_envelope2 trim trim_start trim_end
spaced-not_compact = refl

decode_envelope_transport2-IsEnvelope_example : IsEnvelope small
decode_envelope_transport2-IsEnvelope_example =
    decode_envelope_transport2-IsEnvelope spaced small
      (transport-json spaced spaced-not_compact ∙ spaced-reads)
