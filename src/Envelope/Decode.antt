-- ===== src/Envelope/Decode.antt =====
-- `decodeEnvelope2` of src/core/envelope2.ts: every refusal, in the order of the source.
use true_pad.Json.{JsonValue, number, text, Member, Parser, json_parse}
use true_pad.Direction.{Direction, a_to_b, b_to_a}
use true_pad.Tag.{max_ciphertext_bytes}
use true_pad.Codec.Hex.{hex_to_bytes, is_hex}
use true_pad.Envelope.{EnvelopeV2, is_hex32, is_counter, direction_text}
use true_pad.Envelope.Decimal.{is_canonical, decimal_value}
use true_pad.Envelope.Scan.{WireToken, NumberMember, WireScan, scan_top_level_strings}
use true_pad.Base.{
  ℕ, ◌*◌, ◌==◌, ltb, Bool, true, false, not, ◌&&◌, ◌||◌, List, [], ◌∷◌, Option, none, some, codes,
  length, same, if◌then◌else◌,
}

pub data Envelope2Refusal : Type 0 where
  envelope_v1 malformed_envelope oversize_ciphertext : Envelope2Refusal

-- `Envelope2Decode`.
pub data Envelope2Decode : Type 0 where
  decoded : EnvelopeV2 → Envelope2Decode
  refused : Envelope2Refusal → Envelope2Decode

infixl 5 ◌>>=◌
abbrev pub ◌>>=◌ {ℓ} : {A : Type ℓ} → Option A → (A → Envelope2Decode) → Envelope2Decode
none >>= f = refused malformed_envelope
some a >>= f = f a

-- The value of a key: the last one, as `JSON.parse` keeps it.
unfoldable pub lookup : List ℕ → List Member → Option JsonValue
lookup key [] = none
lookup key (m ∷ ms) =
    let rest = lookup key ms in
    elim rest [ some v ↦ some v | none ↦ if same m.name key then some m.value else none ]

-- `key in raw`.
abbrev pub has : List ℕ → List Member → Bool
has key ms = elim (lookup key ms) [ some v ↦ true | none ↦ false ]

abbrev pub wire_keys : List (List ℕ)
wire_keys =
    codes "formatVersion"
    ∷ codes "pairId"
    ∷ codes "direction"
    ∷ codes "sequence"
    ∷ codes "startOffset"
    ∷ codes "ciphertextLength"
    ∷ codes "ciphertext"
    ∷ codes "tag"
    ∷ []

unfoldable pub includes : List ℕ → List (List ℕ) → Bool
includes key [] = false
includes key (k ∷ ks) = same k key || includes key ks

-- `missing.length > 0`.
unfoldable pub some_missing : List (List ℕ) → List Member → Bool
some_missing [] ms = false
some_missing (k ∷ ks) ms = not (has k ms) || some_missing ks ms

-- `extra.length > 0`.
unfoldable pub some_extra : List Member → Bool
some_extra [] = false
some_extra (m ∷ ms) = not (includes m.name wire_keys) || some_extra ms

-- A token of the given kind that is spelled with an escape.
unfoldable pub some_escaped : Bool → List WireToken → Bool
some_escaped is_name [] = false
some_escaped is_name (t ∷ ts) =
    ((if is_name then t.is_name else not t.is_name) && t.escaped) || some_escaped is_name ts

unfoldable pub names_of : List WireToken → List (List ℕ)
names_of [] = []
names_of (t ∷ ts) = if t.is_name then t.spelling ∷ names_of ts else names_of ts

-- A name that `nameCounts` counts more than once.
unfoldable pub some_repeated : List (List ℕ) → Bool
some_repeated [] = false
some_repeated (k ∷ ks) = includes k ks || some_repeated ks

-- The three keys whose numbers must be canonical decimal integers.
abbrev pub is_counter_key : List ℕ → Bool
is_counter_key k =
    same k (codes "sequence") || same k (codes "startOffset") || same k (codes "ciphertextLength")

abbrev pub is_misspelled : NumberMember → Bool
is_misspelled m =
    if same m.name (codes "formatVersion")
    then not (same m.spelling (codes "2"))
    else is_counter_key m.name && not (is_canonical m.spelling)

unfoldable pub some_misspelled : List NumberMember → Bool
some_misspelled [] = false
some_misspelled (m ∷ ms) = is_misspelled m || some_misspelled ms

-- A number whose spelling is canonical has its decimal value: a double above `max_safe` is not a
-- counter, whatever it rounds to.
abbrev pub counter_value : Option JsonValue → Option ℕ
counter_value (some (number spelling)) =
    if is_canonical spelling && is_counter (decimal_value spelling)
    then some (decimal_value spelling)
    else none
counter_value _ = none

abbrev pub is_version_2 : Option JsonValue → Bool
is_version_2 (some (number spelling)) = same spelling (codes "2")
is_version_2 _ = false

-- A text that meets a pattern.
abbrev pub text_value : (List ℕ → Bool) → Option JsonValue → Option (List ℕ)
text_value matches (some (text units)) = if matches units then some units else none
text_value matches _ = none

abbrev pub direction_value : Option JsonValue → Option Direction
direction_value (some (text units)) =
    if same units (direction_text a_to_b)
    then some a_to_b
    else if same units (direction_text b_to_a)
    then some b_to_a
    else none
direction_value _ = none

-- The envelope of the two hex texts.
unfoldable pub decode_hex :
    List ℕ → Direction → ℕ → ℕ → ℕ → (tag_text ciphertext_text : List ℕ) → Envelope2Decode
decode_hex pair_id direction sequence start_offset ciphertext_length tag_text ciphertext_text = do
  ciphertext ← hex_to_bytes ciphertext_text
  tag ← hex_to_bytes tag_text
  decoded (record {
    pair_id = pair_id;
    direction = direction;
    sequence = sequence;
    start_offset = start_offset;
    ciphertext_length = ciphertext_length;
    ciphertext = ciphertext;
    tag = tag;
  })

-- The declared length, against the bound and against the hex.
unfoldable pub decode_lengths :
    List ℕ → Direction → ℕ → ℕ → ℕ → (tag_text ciphertext_text : List ℕ) → Envelope2Decode
decode_lengths pair_id direction sequence start_offset ciphertext_length tag_text ciphertext_text =
    if ltb max_ciphertext_bytes ciphertext_length
    then refused oversize_ciphertext
    else if not (length ciphertext_text == 2 * ciphertext_length)
    then refused malformed_envelope
    else decode_hex pair_id direction sequence start_offset ciphertext_length tag_text
        ciphertext_text

-- The domains, field by field.
unfoldable pub decode_fields : List Member → Envelope2Decode
decode_fields raw = do
  _ ← if is_version_2 (lookup (codes "formatVersion") raw) then some true else none
  pair_id ← text_value is_hex32 (lookup (codes "pairId") raw)
  direction ← direction_value (lookup (codes "direction") raw)
  sequence ← counter_value (lookup (codes "sequence") raw)
  start_offset ← counter_value (lookup (codes "startOffset") raw)
  ciphertext_length ← counter_value (lookup (codes "ciphertextLength") raw)
  tag_text ← text_value is_hex32 (lookup (codes "tag") raw)
  ciphertext_text ← text_value is_hex (lookup (codes "ciphertext") raw)
  decode_lengths pair_id direction sequence start_offset ciphertext_length tag_text ciphertext_text

-- The checks on an object's members and the spellings of its text.
unfoldable pub decode_members : List Member → WireScan → Envelope2Decode
decode_members raw scan =
    if has (codes "label") raw && not (has (codes "formatVersion") raw)
    then refused envelope_v1
    else if some_escaped true scan.tokens
    then refused malformed_envelope
    else if some_repeated (names_of scan.tokens)
    then refused malformed_envelope
    else if some_escaped false scan.tokens
    then refused malformed_envelope
    else if some_misspelled scan.numbers
    then refused malformed_envelope
    else if some_missing wire_keys raw || some_extra raw
    then refused malformed_envelope
    else decode_fields raw

-- The result of `JSON.parse`: a refusal unless it is an object.
unfoldable pub decode_parsed : Option Parser → WireScan → Envelope2Decode
decode_parsed none scan = refused malformed_envelope
decode_parsed (some p) scan =
    if p.is_object then decode_members p.members scan else refused malformed_envelope

unfoldable pub decode_envelope2 : List ℕ → Envelope2Decode
decode_envelope2 t = decode_parsed (json_parse t) (scan_top_level_strings t)
