-- ===== src/Envelope/Canonical.antt =====
-- What an accepted envelope is: within the domains of `encodeEnvelope2`, whatever text it came from.
use true_pad.Base.{
  ℕ, ◌*◌, ◌≤◌, ◌≡◌, inl, inr, refl, ap, subst, true, false, not, ◌&&◌, ◌||◌, List, Bool, Option,
  none, some, arith, Bytes, IsBytes, length, ◌==◌, ltb, leb, if◌then◌else◌, Bool-cases, codes,
  max_safe,
}
use true_pad.Base.{&&-right, leb→le}
use true_pad.Json.{JsonValue, null, boolean, number, text, nested, Parser, Member, json_parse}
use true_pad.Direction.{Direction}
use true_pad.Tag.{max_ciphertext_bytes}
use true_pad.Codec.Hex.{is_hex, hex_to_bytes}
use true_pad.Codec.Hex.RoundTrip.{hex_to_bytes_canonical, length-bytes_to_hex}
use true_pad.Envelope.{EnvelopeV2, is_hex32, is_counter}
use true_pad.Envelope.Decimal.{is_canonical, decimal_value}
use true_pad.Envelope.RoundTrip.{IsEnvelope}
use true_pad.Envelope.Scan.{WireScan, scan_top_level_strings}
use true_pad.Envelope.Decode.{
  ◌>>=◌, Envelope2Refusal, Envelope2Decode, decoded, refused, malformed_envelope, envelope_v1,
  oversize_ciphertext, has, some_escaped, some_repeated, names_of, some_misspelled, some_missing,
  wire_keys, some_extra, lookup, decode_hex, decode_lengths, decode_fields, decode_members,
  decode_parsed, decode_envelope2, direction_value, counter_value, text_value, is_version_2,
}

pub refused_not_decoded {ℓ} :
    {A : Type ℓ} (r : Envelope2Refusal) (e : EnvelopeV2) → refused r ≡ decoded e → A
refused_not_decoded r e h = absurd (ground arith)

-- A guard that an accepted text has passed.
pub passed :
    (b : Bool) (r : Envelope2Refusal) (x : Envelope2Decode) (e : EnvelopeV2)
    → (if b then refused r else x) ≡ decoded e
    → (b ≡ false) × (x ≡ decoded e)
passed true r x e h = refused_not_decoded r e h
passed false r x e h = (refl, h)

-- A step that has found its value.
pub bound {ℓ} :
    {A : Type ℓ} (o : Option A) (f : A → Envelope2Decode) (e : EnvelopeV2)
    → (o >>= f) ≡ decoded e
    → (a : A) × (o ≡ some a) × (f a ≡ decoded e)
bound none f e h = refused_not_decoded malformed_envelope e h
bound (some a) f e h = (a, refl, h)

abbrev envelope_of : EnvelopeV2 → Envelope2Decode → EnvelopeV2
envelope_of d (decoded e) = e
envelope_of d (refused r) = d

pub decoded-inj : (d e : EnvelopeV2) → decoded d ≡ decoded e → d ≡ e
decoded-inj d e h = ap (envelope_of d) h

text_test : (b : Bool) (u t : List ℕ) → (if b then some u else none) ≡ some t → (b ≡ true) × (u ≡ t)
text_test true u t h = (refl, ground arith)
text_test false u t h = absurd (ground arith)

text_value-inv :
    (matches : List ℕ → Bool) (v : Option JsonValue) (t : List ℕ)
    → text_value matches v ≡ some t
    → matches t ≡ true
text_value-inv matches none t h = absurd (ground arith)
text_value-inv matches (some null) t h = absurd (ground arith)
text_value-inv matches (some (boolean b)) t h = absurd (ground arith)
text_value-inv matches (some (number s)) t h = absurd (ground arith)
text_value-inv matches (some nested) t h = absurd (ground arith)
text_value-inv matches (some (text u)) t h =
    let q = text_test (matches u) u t h in subst (λ x. matches x ≡ true) q.1 q.0

number_test : (b : Bool) (m n : ℕ) → (if b then some m else none) ≡ some n → (b ≡ true) × (m ≡ n)
number_test true m n h = (refl, ground arith)
number_test false m n h = absurd (ground arith)

counter_value-inv : (v : Option JsonValue) (n : ℕ) → counter_value v ≡ some n → n ≤ max_safe
unfolding is_counter
counter_value-inv none n h = absurd (ground arith)
counter_value-inv (some null) n h = absurd (ground arith)
counter_value-inv (some (boolean b)) n h = absurd (ground arith)
counter_value-inv (some nested) n h = absurd (ground arith)
counter_value-inv (some (text u)) n h = absurd (ground arith)
counter_value-inv (some (number s)) n h =
    let q = number_test (is_canonical s && leb (decimal_value s) max_safe) (decimal_value s) n h in
    let l : decimal_value s ≤ max_safe =
      leb→le (decimal_value s) max_safe
        (&&-right (is_canonical s) (leb (decimal_value s) max_safe) q.0) in
    omega (arith, q.1)

length-hex32 :
    (t : List ℕ) (bs : Bytes)
    → is_hex32 t ≡ true
    → hex_to_bytes t ≡ some bs
    → (length bs ≡ 16) × IsBytes bs
unfolding is_hex32
length-hex32 t bs h e =
    let c = hex_to_bytes_canonical t bs e in
    let l : length t ≡ 32 = ground arith in
    (omega (arith, length-bytes_to_hex bs c.1, ap length c.0, l), c.1)

decode_hex-IsEnvelope :
    (p : List ℕ) (d : Direction) (s o n : ℕ) (g t : List ℕ) (e : EnvelopeV2)
    → is_hex32 p ≡ true
    → s ≤ max_safe
    → o ≤ max_safe
    → n ≤ max_ciphertext_bytes
    → is_hex32 g ≡ true
    → length t ≡ 2 * n
    → decode_hex p d s o n g t ≡ decoded e
    → IsEnvelope e
unfolding decode_hex
decode_hex-IsEnvelope p d s o n g t e hp hs ho hn hg ht h =
    let (ciphertext, c_ok, h1) = bound (hex_to_bytes t) _ e h in
    let (tag, t_ok, h2) = bound (hex_to_bytes g) _ e h1 in
    let c = hex_to_bytes_canonical t ciphertext c_ok in
    let g32 = length-hex32 g tag hg t_ok in
    subst IsEnvelope (decoded-inj _ e h2) (record {
      pair_id = hp;
      sequence = hs;
      start_offset = ho;
      bounded = hn;
      declared = omega (arith, length-bytes_to_hex ciphertext c.1, ap length c.0, ht);
      ciphertext = c.1;
      tag_length = g32.0;
      tag = g32.1;
    })

decode_lengths-IsEnvelope :
    (p : List ℕ) (d : Direction) (s o n : ℕ) (g t : List ℕ) (e : EnvelopeV2)
    → is_hex32 p ≡ true
    → s ≤ max_safe
    → o ≤ max_safe
    → is_hex32 g ≡ true
    → decode_lengths p d s o n g t ≡ decoded e
    → IsEnvelope e
unfolding decode_lengths
decode_lengths-IsEnvelope p d s o n g t e hp hs ho hg h =
    let (small, h1) = passed (ltb max_ciphertext_bytes n) oversize_ciphertext _ e h in
    let (declared, h2) = passed (not (length t == 2 * n)) malformed_envelope _ e h1 in
    decode_hex-IsEnvelope p d s o n g t e hp hs ho (ground arith) hg (ground arith) h2

decode_fields-IsEnvelope :
    (raw : List Member) (e : EnvelopeV2) → decode_fields raw ≡ decoded e → IsEnvelope e
unfolding decode_fields
decode_fields-IsEnvelope raw e h =
    let (_, _, h1) =
      bound (if is_version_2 (lookup (codes "formatVersion") raw) then some true else none) _ e h in
    let (p, p_ok, h2) = bound (text_value is_hex32 (lookup (codes "pairId") raw)) _ e h1 in
    let (d, _, h3) = bound (direction_value (lookup (codes "direction") raw)) _ e h2 in
    let (s, s_ok, h4) = bound (counter_value (lookup (codes "sequence") raw)) _ e h3 in
    let (o, o_ok, h5) = bound (counter_value (lookup (codes "startOffset") raw)) _ e h4 in
    let (n, n_ok, h6) = bound (counter_value (lookup (codes "ciphertextLength") raw)) _ e h5 in
    let (g, g_ok, h7) = bound (text_value is_hex32 (lookup (codes "tag") raw)) _ e h6 in
    let (t, _, h8) = bound (text_value is_hex (lookup (codes "ciphertext") raw)) _ e h7 in
    decode_lengths-IsEnvelope p d s o n g t e (text_value-inv is_hex32 _ p p_ok)
      (counter_value-inv _ s s_ok) (counter_value-inv _ o o_ok) (text_value-inv is_hex32 _ g g_ok)
      h8

decode_members-IsEnvelope :
    (raw : List Member) (scan : WireScan) (e : EnvelopeV2)
    → decode_members raw scan ≡ decoded e
    → IsEnvelope e
unfolding decode_members
decode_members-IsEnvelope raw scan e h =
    let (_, h1) =
      passed (has (codes "label") raw && not (has (codes "formatVersion") raw)) envelope_v1 _ e h in
    let (_, h2) = passed (some_escaped true scan.tokens) malformed_envelope _ e h1 in
    let (_, h3) = passed (some_repeated (names_of scan.tokens)) malformed_envelope _ e h2 in
    let (_, h4) = passed (some_escaped false scan.tokens) malformed_envelope _ e h3 in
    let (_, h5) = passed (some_misspelled scan.numbers) malformed_envelope _ e h4 in
    let (_, h6) = passed (some_missing wire_keys raw || some_extra raw) malformed_envelope _ e h5 in
    decode_fields-IsEnvelope raw e h6

decode_parsed-IsEnvelope :
    (p : Option Parser) (scan : WireScan) (e : EnvelopeV2)
    → decode_parsed p scan ≡ decoded e
    → IsEnvelope e
unfolding decode_parsed
decode_parsed-IsEnvelope none scan e h = refused_not_decoded malformed_envelope e h
decode_parsed-IsEnvelope (some p) scan e h = elim (Bool-cases p.is_object) [
  | inl y ↦ decode_members-IsEnvelope p.members scan e (
      subst
        (λ b. (if b then decode_members p.members scan else refused malformed_envelope) ≡ decoded e)
        y h)
  | inr n ↦ refused_not_decoded malformed_envelope e (
      subst
        (λ b. (if b then decode_members p.members scan else refused malformed_envelope) ≡ decoded e)
        n h)
]

-- Whatever text the strict parse accepts, the envelope it gives is within every domain that
-- `encodeEnvelope2` demands.
pub decode_envelope2-IsEnvelope :
    (t : List ℕ) (e : EnvelopeV2) → decode_envelope2 t ≡ decoded e → IsEnvelope e
unfolding decode_envelope2
decode_envelope2-IsEnvelope t e h =
    decode_parsed-IsEnvelope (json_parse t) (scan_top_level_strings t) e h
