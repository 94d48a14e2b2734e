-- ===== src/Envelope/Printed.antt =====
-- What `JSON.parse` and the scan of the top level read in the text that `encodeEnvelope2` prints.
use true_pad.Base.{
  ℕ, ◌≡◌, refl, ap, ◌∙◌, true, false, List, [], ◌∷◌, ◌++◌, some, arith, Bytes, IsBytes, All, take,
  codes,
}
use true_pad.Base.{&&-left, &&-right}
use true_pad.Json.{number, text, at_after, Member, parse_from, json_parse, parser_start}
use true_pad.Direction.{Direction, a_to_b, b_to_a}
use true_pad.Codec.Hex.{bytes_to_hex, is_hex_digit, is_hex}
use true_pad.Codec.Hex.RoundTrip.{is_hex-bytes_to_hex}
use true_pad.Envelope.{EnvelopeV2, all_hex, wire_text, direction_text}
use true_pad.Envelope.Decimal.{to_decimal, is_canonical}
use true_pad.Envelope.Chunks.{IsPlain, parse_from-plain, scan_from-plain}
use true_pad.Envelope.Numbers.{parse_from-number, scan_from-number}
use true_pad.Envelope.Scan.{
  WireScan, closed, Scanner, scanner_start, scan_from, scan_top_level_strings,
}

hex_digit-IsPlain : (c : ℕ) → is_hex_digit c ≡ true → IsPlain c
unfolding is_hex_digit
hex_digit-IsPlain c h = ground arith

pub all_hex-IsPlain : (t : List ℕ) → all_hex t ≡ true → All IsPlain t
unfolding all_hex
all_hex-IsPlain [] h = tt
all_hex-IsPlain (c ∷ cs) h = (
  hex_digit-IsPlain c (&&-left (is_hex_digit c) (all_hex cs) h),
  all_hex-IsPlain cs (&&-right (is_hex_digit c) (all_hex cs) h),
)

pub is_hex-all_hex : (t : List ℕ) → is_hex t ≡ true → all_hex t ≡ true
unfolding is_hex all_hex
is_hex-all_hex [] h = refl
is_hex-all_hex (a ∷ []) h = ground arith
is_hex-all_hex (a ∷ b ∷ t) h = ground (arith, is_hex-all_hex t)

pub hex-IsPlain : (bs : Bytes) → IsBytes bs → All IsPlain (bytes_to_hex bs)
hex-IsPlain bs h =
    all_hex-IsPlain (bytes_to_hex bs) (is_hex-all_hex (bytes_to_hex bs) (is_hex-bytes_to_hex bs h))

direction-IsPlain : (d : Direction) → All IsPlain (direction_text d)
direction-IsPlain a_to_b = ground arith
direction-IsPlain b_to_a = ground arith

-- The envelopes whose fields print as plain text.
pub record IsPrintable (e : EnvelopeV2) : Type 0 where
  pub pair_id : all_hex e.pair_id ≡ true
  pub ciphertext : IsBytes e.ciphertext
  pub tag : IsBytes e.tag
  pub sequence : is_canonical (to_decimal e.sequence) ≡ true
  pub start_offset : is_canonical (to_decimal e.start_offset) ≡ true
  pub ciphertext_length : is_canonical (to_decimal e.ciphertext_length) ≡ true

abbrev pub wire_members : EnvelopeV2 → List Member
wire_members e =
    record { name = codes "formatVersion"; value = number (codes "2") }
    ∷ record { name = codes "pairId"; value = text e.pair_id }
    ∷ record { name = codes "direction"; value = text (direction_text e.direction) }
    ∷ record { name = codes "sequence"; value = number (to_decimal e.sequence) }
    ∷ record { name = codes "startOffset"; value = number (to_decimal e.start_offset) }
    ∷ record { name = codes "ciphertextLength"; value = number (to_decimal e.ciphertext_length) }
    ∷ record { name = codes "ciphertext"; value = text (bytes_to_hex e.ciphertext) }
    ∷ record { name = codes "tag"; value = text (bytes_to_hex e.tag) }
    ∷ []

abbrev pub wire_scan : EnvelopeV2 → WireScan
wire_scan e = record {
  tokens =
      record { is_name = true; spelling = codes "formatVersion"; escaped = false }
      ∷ record { is_name = true; spelling = codes "pairId"; escaped = false }
      ∷ record { is_name = false; spelling = e.pair_id; escaped = false }
      ∷ record { is_name = true; spelling = codes "direction"; escaped = false }
      ∷ record { is_name = false; spelling = (direction_text e.direction); escaped = false }
      ∷ record { is_name = true; spelling = codes "sequence"; escaped = false }
      ∷ record { is_name = true; spelling = codes "startOffset"; escaped = false }
      ∷ record { is_name = true; spelling = codes "ciphertextLength"; escaped = false }
      ∷ record { is_name = true; spelling = codes "ciphertext"; escaped = false }
      ∷ record { is_name = false; spelling = (bytes_to_hex e.ciphertext); escaped = false }
      ∷ record { is_name = true; spelling = codes "tag"; escaped = false }
      ∷ record { is_name = false; spelling = (bytes_to_hex e.tag); escaped = false }
      ∷ [];
  numbers =
      record { name = codes "formatVersion"; spelling = (codes "2") }
      ∷ record { name = codes "sequence"; spelling = (to_decimal e.sequence) }
      ∷ record { name = codes "startOffset"; spelling = (to_decimal e.start_offset) }
      ∷ record { name = codes "ciphertextLength"; spelling = (to_decimal e.ciphertext_length) }
      ∷ [];
}

-- What follows a field's text, a comma after a number left out.
abbrev after_tag : EnvelopeV2 → List ℕ
after_tag e = codes "\"}"

abbrev after_ciphertext : EnvelopeV2 → List ℕ
after_ciphertext e = codes "\",\"tag\":\"" ++ (bytes_to_hex e.tag ++ after_tag e)

abbrev after_ciphertext_length : EnvelopeV2 → List ℕ
after_ciphertext_length e =
    codes "\"ciphertext\":\"" ++ (bytes_to_hex e.ciphertext ++ after_ciphertext e)

abbrev after_start_offset : EnvelopeV2 → List ℕ
after_start_offset e =
    codes "\"ciphertextLength\":"
    ++ (to_decimal e.ciphertext_length ++ b',' ∷ after_ciphertext_length e)

abbrev after_sequence : EnvelopeV2 → List ℕ
after_sequence e =
    codes "\"startOffset\":" ++ (to_decimal e.start_offset ++ b',' ∷ after_start_offset e)

abbrev after_direction : EnvelopeV2 → List ℕ
after_direction e = codes "\",\"sequence\":" ++ (to_decimal e.sequence ++ b',' ∷ after_sequence e)

abbrev after_pair_id : EnvelopeV2 → List ℕ
after_pair_id e = codes "\",\"direction\":\"" ++ (direction_text e.direction ++ after_direction e)

-- The parse of the printed text ends with the eight members.
parse_from-wire_text :
    (e : EnvelopeV2)
    → IsPrintable e
    → parse_from parser_start (wire_text e)
      ≡ some (record {
        mode = at_after;
        stack = [];
        is_object = true;
        name = codes "tag";
        members = wire_members e;
      })
unfolding parse_from wire_text
parse_from-wire_text e h =
    parse_from-plain false [] (e.pair_id) (after_pair_id e) (true ∷ []) true (codes "pairId")
      (take 1 (wire_members e)) (all_hex-IsPlain e.pair_id h.pair_id)
    ∙ (parse_from-plain false [] (direction_text e.direction) (after_direction e) (true ∷ []) true
          (codes "direction") (take 2 (wire_members e)) (direction-IsPlain e.direction)
        ∙ (parse_from-number (to_decimal e.sequence) (after_sequence e) (codes "sequence")
              (take 3 (wire_members e)) h.sequence
            ∙ (parse_from-number (to_decimal e.start_offset) (after_start_offset e)
                  (codes "startOffset") (take 4 (wire_members e)) h.start_offset
                ∙ (parse_from-number (to_decimal e.ciphertext_length) (after_ciphertext_length e)
                      (codes "ciphertextLength") (take 5 (wire_members e)) h.ciphertext_length
                    ∙ (parse_from-plain false [] (bytes_to_hex e.ciphertext) (after_ciphertext e)
                          (true ∷ []) true (codes "ciphertext") (take 6 (wire_members e))
                          (hex-IsPlain e.ciphertext h.ciphertext)
                        ∙ (parse_from-plain false [] (bytes_to_hex e.tag) (after_tag e) (true ∷ [])
                            true (codes "tag") (take 7 (wire_members e))
                            (hex-IsPlain e.tag h.tag)))))))

pub json_parse-wire_text :
    (e : EnvelopeV2)
    → IsPrintable e
    → json_parse (wire_text e)
      ≡ some (record {
        mode = at_after;
        stack = [];
        is_object = true;
        name = codes "tag";
        members = wire_members e;
      })
unfolding json_parse
json_parse-wire_text e h = rw (parse_from-wire_text e h)

-- The scan of the printed text collects its spellings.
scan_from-wire_text :
    (e : EnvelopeV2)
    → IsPrintable e
    → scan_from scanner_start (wire_text e) ≡ record {
      reading = closed;
      depth = 0;
      expect_name = false;
      pending_name = codes "tag";
      tokens = (wire_scan e).tokens;
      numbers = (wire_scan e).numbers;
    }
unfolding scan_from wire_text
scan_from-wire_text e h =
    scan_from-plain [] (e.pair_id) (after_pair_id e) 1 false (codes "pairId")
      (take 2 (wire_scan e).tokens) (take 1 (wire_scan e).numbers)
      (all_hex-IsPlain e.pair_id h.pair_id)
    ∙ (scan_from-plain [] (direction_text e.direction) (after_direction e) 1 false
          (codes "direction") (take 4 (wire_scan e).tokens) (take 1 (wire_scan e).numbers)
          (direction-IsPlain e.direction)
        ∙ (scan_from-number (to_decimal e.sequence) (after_sequence e) (codes "sequence")
              (take 6 (wire_scan e).tokens) (take 1 (wire_scan e).numbers) h.sequence
            ∙ (scan_from-number (to_decimal e.start_offset) (after_start_offset e)
                  (codes "startOffset") (take 7 (wire_scan e).tokens) (take 2 (wire_scan e).numbers)
                  h.start_offset
                ∙ (scan_from-number (to_decimal e.ciphertext_length) (after_ciphertext_length e)
                      (codes "ciphertextLength") (take 8 (wire_scan e).tokens)
                      (take 3 (wire_scan e).numbers) h.ciphertext_length
                    ∙ (scan_from-plain [] (bytes_to_hex e.ciphertext) (after_ciphertext e) 1 false
                          (codes "ciphertext") (take 9 (wire_scan e).tokens)
                          (take 4 (wire_scan e).numbers) (hex-IsPlain e.ciphertext h.ciphertext)
                        ∙ (scan_from-plain [] (bytes_to_hex e.tag) (after_tag e) 1 false
                            (codes "tag") (take 11 (wire_scan e).tokens)
                            (take 4 (wire_scan e).numbers) (hex-IsPlain e.tag h.tag)))))))

pub scan-wire_text :
    (e : EnvelopeV2) → IsPrintable e → scan_top_level_strings (wire_text e) ≡ wire_scan e
unfolding scan_top_level_strings
scan-wire_text e h =
    ap (λ (s : Scanner). record { tokens = s.tokens; numbers = s.numbers })
      (scan_from-wire_text e h)
