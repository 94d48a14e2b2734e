-- ===== src/Envelope/Compact/Transport.antt =====
-- `decodeEnvelopeTransport2` of src/core/compact-envelope2.ts: either spelling is read, by its own
-- decoder.
use true_pad.Base.{
  ℕ, ◌≡◌, inl, inr, refl, sym, ap, ◌∙◌, true, false, List, [], ◌∷◌, ◌++◌, some, Bytes, Bool-cases,
}
use true_pad.Envelope.{EnvelopeV2, encode_envelope2, wire_text}
use true_pad.Codec.Base64.{to_base64_url}
use true_pad.Envelope.RoundTrip.{
  IsEnvelope, decode_envelope2-wire_text, encode_envelope2-IsEnvelope,
}
use true_pad.Envelope.Canonical.{decode_envelope2-IsEnvelope}
use true_pad.Envelope.Decode.{decoded, decode_envelope2}
use true_pad.Envelope.Compact.{
  compact_prefix, trim, trim_start, trim_end, keep_unless_last, starts_with,
  encode_compact_envelope2, decode_trimmed, decode_compact_envelope2, decode_envelope_transport2,
  is_compact_envelope2,
}
use true_pad.Envelope.Compact.Canonical.{decode_compact_envelope2_accepts}
use true_pad.Envelope.Compact.RoundTrip.{compact_spelling, trim-compact}

-- A text that starts with a brace still does after `trim`.
brace_first : (t : List ℕ) → starts_with compact_prefix (keep_unless_last b'{' t) ≡ false
brace_first [] = refl
brace_first (c ∷ []) = refl
brace_first (c ∷ d ∷ []) = refl
brace_first (c ∷ d ∷ x ∷ t) = refl

wire_text-not_compact : (e : EnvelopeV2) → is_compact_envelope2 (wire_text e) ≡ false
unfolding is_compact_envelope2 wire_text trim trim_start trim_end
wire_text-not_compact e = brace_first _

compact-is_compact : (bs : Bytes) → is_compact_envelope2 (compact_prefix ++ to_base64_url bs) ≡ true
unfolding is_compact_envelope2
compact-is_compact bs = ap (starts_with compact_prefix) (trim-compact bs)

-- The decoder that the transport chooses.
pub transport-compact :
    (t : List ℕ)
    → is_compact_envelope2 t ≡ true
    → decode_envelope_transport2 t ≡ decode_compact_envelope2 (trim t)
unfolding decode_envelope_transport2 is_compact_envelope2
transport-compact t h = rw (h)

pub transport-json :
    (t : List ℕ)
    → is_compact_envelope2 t ≡ false
    → decode_envelope_transport2 t ≡ decode_envelope2 t
unfolding decode_envelope_transport2 is_compact_envelope2
transport-json t h = rw (h)

-- An envelope within its domains has two spellings, the JSON line and the compact text, and the
-- transport decoder gives the same envelope back from each of them.
pub decode_envelope_transport2-encode :
    (e : EnvelopeV2)
    → IsEnvelope e
    → (json : List ℕ) × (compact : List ℕ) × (encode_envelope2 e ≡ some json)
      × (encode_compact_envelope2 e ≡ some compact)
      × (decode_envelope_transport2 json ≡ decoded e)
      × (decode_envelope_transport2 compact ≡ decoded e)
unfolding decode_compact_envelope2
decode_envelope_transport2-encode e h =
    let (bs, enc, dec) = compact_spelling e h in
    let t = compact_prefix ++ to_base64_url bs in
    let twice = ap trim (trim-compact bs) ∙ trim-compact bs in
    (
      wire_text e,
      t,
      encode_envelope2-IsEnvelope e h,
      enc,
      transport-json (wire_text e) (wire_text-not_compact e) ∙ decode_envelope2-wire_text e h,
      transport-compact t (compact-is_compact bs) ∙ (ap decode_trimmed twice ∙ dec),
    )

-- What the compact decoder accepts is within the domains of `encodeEnvelope2`, too.
decode_compact-IsEnvelope :
    (t : List ℕ) (e : EnvelopeV2) → decode_compact_envelope2 t ≡ decoded e → IsEnvelope e
decode_compact-IsEnvelope t e h = (decode_compact_envelope2_accepts t e h).1

-- Whatever text the transport decoder accepts, in either spelling, the envelope is within every
-- domain that `encodeEnvelope2` demands.
pub decode_envelope_transport2-IsEnvelope :
    (t : List ℕ) (e : EnvelopeV2) → decode_envelope_transport2 t ≡ decoded e → IsEnvelope e
decode_envelope_transport2-IsEnvelope t e h = elim (Bool-cases (is_compact_envelope2 t)) [
  | inl y ↦ decode_compact-IsEnvelope (trim t) e (sym (transport-compact t y) ∙ h)
  | inr n ↦ decode_envelope2-IsEnvelope t e (sym (transport-json t n) ∙ h)
]
