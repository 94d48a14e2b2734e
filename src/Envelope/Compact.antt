-- ===== src/Envelope/Compact.antt =====
-- The compact spelling of an envelope and the choice between the two spellings,
-- src/core/compact-envelope2.ts. The read position is carried as the bytes that are still unread.
pub mod Transport
pub mod Accepted
pub mod Canonical
pub mod RoundTrip
pub mod Payload
use true_pad.Direction.{Direction, a_to_b, b_to_a}
use true_pad.Tag.{max_ciphertext_bytes}
use true_pad.Codec.Hex.{bytes_to_hex, hex_to_bytes}
use true_pad.Codec.Base64.{to_base64_url, from_base64_url}
use true_pad.Codec.Leb128.{UlebRead, found, write_uleb128, read_uleb128}
use true_pad.Codec.Leb128
use true_pad.Envelope.{EnvelopeV2, encode_envelope2}
use true_pad.Envelope.Decode.{
  Envelope2Decode, decoded, refused, envelope_v1, malformed_envelope, oversize_ciphertext,
  decode_envelope2,
}
use true_pad.Base.{
  ℕ, zero, suc, ◌+◌, ◌-◌, ◌*◌, ◌/◌, ◌%◌, ◌^◌, ◌≤◌, ◌<◌, ◌≡◌, ◌≢◌, ◌↔◌, ◌⊎◌, inl, inr, refl, sym, ap,
  ap₂, subst, ◌∙◌, bit_and, bit_or, bit_xor, true, false, not, ◌&&◌, ◌||◌, List, [], ◌∷◌, ◌++◌,
  Bool, Option, none, some, arith, Bytes, IsByte, IsBytes, All, length, take, drop, replicate,
  get_elem?, get_or, ◌==◌, ltb, leb, if◌then◌else◌, ◌>>=◌, min, max, Bool-cases, Option-cases,
  codes, max_safe, same, append-nil, append_assoc, map,
}

abbrev pub compact_prefix : List ℕ
compact_prefix = codes "TP2:"

-- `Math.ceil(((MAX_CIPHERTEXT_BYTES + 64) * 4) / 3) + COMPACT_PREFIX.length`.
abbrev pub max_compact_chars : ℕ
max_compact_chars = ((max_ciphertext_bytes + 64) * 4 + 2) / 3 + 4

-- The white space and line terminators that `String.prototype.trim` removes.
abbrev pub is_space : ℕ → Bool
is_space c =
    (leb 9 c && leb c 13)
    || c == 32
    || c == 160
    || c == 5760
    || (leb 8192 c && leb c 8202)
    || c == 8232
    || c == 8233
    || c == 8239
    || c == 8287
    || c == 12288
    || c == 65279

unfoldable pub trim_start : List ℕ → List ℕ
trim_start [] = []
trim_start (c ∷ cs) = let rest = trim_start cs in if is_space c then rest else c ∷ cs

-- A space stays when something is left after it.
abbrev pub keep_unless_last : ℕ → List ℕ → List ℕ
keep_unless_last c [] = if is_space c then [] else c ∷ []
keep_unless_last c (d ∷ ds) = c ∷ d ∷ ds

unfoldable pub trim_end : List ℕ → List ℕ
trim_end [] = []
trim_end (c ∷ cs) = keep_unless_last c (trim_end cs)

unfoldable pub trim : List ℕ → List ℕ
trim t = trim_end (trim_start t)

unfoldable pub includes_unit : ℕ → List ℕ → Bool
includes_unit c [] = false
includes_unit c (x ∷ xs) = x == c || includes_unit c xs

abbrev pub starts_with : List ℕ → List ℕ → Bool
starts_with prefix t = same (take (length prefix) t) prefix

abbrev pub direction_byte : Direction → ℕ
direction_byte a_to_b = 0
direction_byte b_to_a = 1

-- The three varints, the ciphertext and the tag.
abbrev pub counter_bytes : EnvelopeV2 → Bytes
counter_bytes e =
    write_uleb128 e.sequence
    ++ (write_uleb128 e.start_offset
        ++ (write_uleb128 e.ciphertext_length ++ (e.ciphertext ++ e.tag)))

-- `head`, the ciphertext and the tag.
abbrev pub compact_bytes : Bytes → EnvelopeV2 → Bytes
compact_bytes pair_id e = 1 ∷ 2 ∷ (pair_id ++ direction_byte e.direction ∷ counter_bytes e)

unfoldable pub encode_compact_envelope2 : EnvelopeV2 → Option (List ℕ)
encode_compact_envelope2 e = do
  _ ← encode_envelope2 e
  pair_id ← hex_to_bytes e.pair_id
  if length pair_id == 16
      then some (compact_prefix ++ to_base64_url (compact_bytes pair_id e))
      else none

-- A varint of the header, or the refusal of one that is not canonical.
abbrev pub read_field : UlebRead → (ℕ → Bytes → Envelope2Decode) → Envelope2Decode
read_field (found v rest) f = f v rest
read_field (Leb128.refused why) f = refused malformed_envelope

-- The canonical encoder's text, decoded; a throw is a refusal.
abbrev pub decode_text : Option (List ℕ) → Envelope2Decode
decode_text none = refused malformed_envelope
decode_text (some json) = decode_envelope2 json

-- The canonical encoder and decoder decide on the candidate.
unfoldable pub decide : EnvelopeV2 → Envelope2Decode
decide candidate = decode_text (encode_envelope2 candidate)

-- The ciphertext and the tag, which must be exactly what is left.
unfoldable pub decode_body : List ℕ → Direction → ℕ → ℕ → ℕ → Bytes → Envelope2Decode
decode_body pair_id direction sequence start_offset n bytes =
    if ltb max_ciphertext_bytes n
    then refused oversize_ciphertext
    else if ltb (length bytes) (n + 16)
    then refused malformed_envelope
    else if ltb (n + 16) (length bytes)
    then refused malformed_envelope
    else decide (record {
      pair_id = pair_id;
      direction = direction;
      sequence = sequence;
      start_offset = start_offset;
      ciphertext_length = n;
      ciphertext = take n bytes;
      tag = drop n bytes;
    })

unfoldable pub decode_counters : List ℕ → Direction → Bytes → Envelope2Decode
decode_counters pair_id direction bytes = read_field (read_uleb128 bytes) (λ sequence bytes1.
    read_field (read_uleb128 bytes1) (λ start_offset bytes2.
      read_field (read_uleb128 bytes2)
        (λ n bytes3. decode_body pair_id direction sequence start_offset n bytes3)))

unfoldable pub decode_direction : List ℕ → Bytes → Envelope2Decode
decode_direction pair_id [] = refused malformed_envelope
decode_direction pair_id (d ∷ bytes) =
    if d == 0
    then decode_counters pair_id a_to_b bytes
    else if d == 1
    then decode_counters pair_id b_to_a bytes
    else refused malformed_envelope

unfoldable pub decode_pair_id : Bytes → Envelope2Decode
decode_pair_id bytes =
    if ltb (length bytes) 16
    then refused malformed_envelope
    else decode_direction (bytes_to_hex (take 16 bytes)) (drop 16 bytes)

unfoldable pub decode_header : Bytes → Envelope2Decode
decode_header [] = refused malformed_envelope
decode_header (a ∷ []) = refused malformed_envelope
decode_header (a ∷ b ∷ bytes) =
    if not (a == 1)
    then refused malformed_envelope
    else if not (b == 2)
    then refused (if b == 1 then envelope_v1 else malformed_envelope)
    else decode_pair_id bytes

-- The bytes of a payload, which must be the spelling that the encoder gives them.
unfoldable pub decode_payload : List ℕ → Option Bytes → Envelope2Decode
decode_payload payload none = refused malformed_envelope
decode_payload payload (some bytes) =
    if same (to_base64_url bytes) payload then decode_header bytes else refused malformed_envelope

-- The body of `decodeCompactEnvelope2` after `trim`.
unfoldable pub decode_trimmed : List ℕ → Envelope2Decode
decode_trimmed t =
    let payload = drop 4 t in
    if not (starts_with compact_prefix t)
    then refused malformed_envelope
    else if ltb max_compact_chars (length t)
    then refused malformed_envelope
    else if length payload == 0
    then refused malformed_envelope
    else if includes_unit b'=' payload
    then refused malformed_envelope
    else decode_payload payload (from_base64_url payload)

unfoldable pub decode_compact_envelope2 : List ℕ → Envelope2Decode
decode_compact_envelope2 t = decode_trimmed (trim t)

unfoldable pub is_compact_envelope2 : List ℕ → Bool
is_compact_envelope2 t = starts_with compact_prefix (trim t)

unfoldable pub decode_envelope_transport2 : List ℕ → Envelope2Decode
decode_envelope_transport2 t =
    let trimmed = trim t in
    if starts_with compact_prefix trimmed
    then decode_compact_envelope2 trimmed
    else decode_envelope2 t
