-- ===== src/Envelope.antt =====
-- The JSON envelope, src/core/envelope2.ts: the record, its domains and `encodeEnvelope2`.
-- A text is the list of its code units; a throw is `none`.
mod Tests
pub mod Canonical
pub mod Decimal
pub mod Scan
pub mod Chunks
pub mod Numbers
pub mod Compact
pub mod RoundTrip
pub mod Printed
pub mod Decode
use true_pad.Direction.{Direction, a_to_b, b_to_a}
use true_pad.Tag.{max_ciphertext_bytes}
use true_pad.Codec.Hex.{bytes_to_hex, is_hex_digit}
use true_pad.Envelope.Decimal.{to_decimal}
use true_pad.Base.{
  ℕ, ◌+◌, ◌*◌, ◌^◌, Bool, true, ◌&&◌, ◌||◌, not, List, [], ◌∷◌, ◌++◌, Option, none, some, Bytes,
  codes, length, ◌==◌, ltb, leb, if◌then◌else◌, max_safe,
}

pub record EnvelopeV2 : Type 0 where
  pub pair_id : List ℕ
  pub direction : Direction
  pub sequence : ℕ
  pub start_offset : ℕ
  pub ciphertext_length : ℕ
  pub ciphertext : Bytes
  pub tag : Bytes

-- `[0-9a-f]*`.
unfoldable pub all_hex : List ℕ → Bool
all_hex [] = true
all_hex (c ∷ cs) = is_hex_digit c && all_hex cs

-- `PAIR_ID_RE` and `TAG_RE`, the pattern `^[0-9a-f]{32}$`.
unfoldable pub is_hex32 : List ℕ → Bool
is_hex32 t = length t == 32 && all_hex t

-- `isCounter`; a number of the model is a non-negative integer.
unfoldable pub is_counter : ℕ → Bool
is_counter n = leb n max_safe

abbrev pub direction_text : Direction → List ℕ
direction_text a_to_b = codes "A->B"
direction_text b_to_a = codes "B->A"

-- `JSON.stringify` of the eight fields. No field's text holds a unit that JSON escapes.
unfoldable pub wire_text : EnvelopeV2 → List ℕ
wire_text e =
    codes "{\"formatVersion\":2,\"pairId\":\""
    ++ (e.pair_id
        ++ (codes "\",\"direction\":\""
            ++ (direction_text e.direction
                ++ (codes "\",\"sequence\":"
                    ++ (to_decimal e.sequence
                        ++ (codes ",\"startOffset\":"
                            ++ (to_decimal e.start_offset
                                ++ (codes ",\"ciphertextLength\":"
                                    ++ (to_decimal e.ciphertext_length
                                        ++ (codes ",\"ciphertext\":\""
                                            ++ (bytes_to_hex e.ciphertext
                                                ++ (codes "\",\"tag\":\""
                                                    ++ (bytes_to_hex e.tag
                                                        ++ codes "\"}")))))))))))))

unfoldable pub encode_envelope2 : EnvelopeV2 → Option (List ℕ)
encode_envelope2 e =
    if not (is_hex32 e.pair_id)
    then none
    else if not
        (is_counter e.sequence && is_counter e.start_offset && is_counter e.ciphertext_length)
    then none
    else if ltb max_ciphertext_bytes e.ciphertext_length
    then none
    else if not (length e.ciphertext == e.ciphertext_length)
    then none
    else if not (length e.tag == 16)
    then none
    else some (wire_text e)
