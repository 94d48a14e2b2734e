-- ===== src/Envelope/Compact/Canonical.antt =====
-- The compact decoder accepts one spelling of an envelope: the encoder's.
use true_pad.Base.{
  ℕ, ◌%◌, ◌≡◌, ◌≢◌, inl, inr, refl, sym, ap, subst, ◌∙◌, true, false, not, List, [], ◌∷◌, ◌++◌,
  Bool, Option, none, some, arith, Bytes, IsBytes, length, take, drop, ◌==◌, ltb, if◌then◌else◌,
  ◌>>=◌, Bool-cases, Option-cases, same,
}
use true_pad.Base.{take-append-drop, same-eq}
use true_pad.Codec.Hex.{hex_to_bytes}
use true_pad.Codec.Hex.RoundTrip.{hex_to_bytes-bytes_to_hex}
use true_pad.Codec.Base64.{
  to_base64_url, from_base64_url, from_groups, b64_index, byte0, byte1, byte2,
}
use true_pad.Envelope.{EnvelopeV2}
use true_pad.Envelope.RoundTrip.{IsEnvelope, encode_envelope2-IsEnvelope}
use true_pad.Envelope.Canonical.{refused_not_decoded, passed}
use true_pad.Envelope.Decode.{decoded, refused, malformed_envelope}
use true_pad.Envelope.Compact.{
  compact_prefix, max_compact_chars, trim, includes_unit, starts_with, encode_compact_envelope2,
  decode_header, decode_payload, decode_trimmed, decode_compact_envelope2,
}
use true_pad.Envelope.Compact.Accepted.{decode_header-inv}

found_step :
    {A : Type 0} (o : Option A) (f : A → Option Bytes) (bs : Bytes)
    → (o >>= f) ≡ some bs
    → (a : A) × (f a ≡ some bs)
found_step none f bs h = absurd (ground arith)
found_step (some a) f bs h = (a, h)

some-IsBytes : (xs bs : Bytes) → IsBytes xs → some xs ≡ some bs → IsBytes bs
some-IsBytes xs bs ok h = subst IsBytes (ap (λ o. elim o [ some x ↦ x | none ↦ xs ]) h) ok

from_groups-IsBytes : (t : List ℕ) (bs : Bytes) → from_groups t ≡ some bs → IsBytes bs
unfolding from_groups byte0 byte1 byte2
from_groups-IsBytes [] bs h = some-IsBytes [] bs tt h
from_groups-IsBytes (t0 ∷ []) bs h = absurd (ground arith)
from_groups-IsBytes (t0 ∷ t1 ∷ []) bs h =
    let (c0, h0) = found_step (b64_index t0) _ bs h in
    let (c1, h1) = found_step (b64_index t1) _ bs h0 in some-IsBytes _ bs (omega arith, tt) h1
from_groups-IsBytes (t0 ∷ t1 ∷ t2 ∷ []) bs h =
    let (c0, h0) = found_step (b64_index t0) _ bs h in
    let (c1, h1) = found_step (b64_index t1) _ bs h0 in
    let (c2, h2) = found_step (b64_index t2) _ bs h1 in
    some-IsBytes _ bs (omega arith, (omega arith, tt)) h2
from_groups-IsBytes (t0 ∷ t1 ∷ t2 ∷ t3 ∷ ts) bs h =
    let (c0, h0) = found_step (b64_index t0) _ bs h in
    let (c1, h1) = found_step (b64_index t1) _ bs h0 in
    let (c2, h2) = found_step (b64_index t2) _ bs h1 in
    let (c3, h3) = found_step (b64_index t3) _ bs h2 in
    elim (Option-cases (from_groups ts)) [
      | inl n ↦ absurd (no_rest (byte0 c0 c1) (byte1 c1 c2) (byte2 c2 c3) (from_groups ts) n h3)
      | inr (r, q) ↦
          some-IsBytes _ bs (omega arith, (omega arith, (omega arith, from_groups-IsBytes ts r q)))
            (ap (λ o. o >>= λ rest. some (byte0 c0 c1 ∷ byte1 c1 c2 ∷ byte2 c2 c3 ∷ rest)) (sym q)
              ∙ h3)
    ]
  where
    no_rest :
        (x y z : ℕ) (o : Option Bytes)
        → o ≡ none
        → (o >>= λ rest. some (x ∷ y ∷ z ∷ rest)) ≢ some bs
    no_rest x y z none q k = ground arith
    no_rest x y z (some r) q k = ground arith

from_base64_url-IsBytes : (t : List ℕ) (bs : Bytes) → from_base64_url t ≡ some bs → IsBytes bs
unfolding from_base64_url
from_base64_url-IsBytes t bs h =
    from_groups-IsBytes t bs (option_some (length t % 4 == 1) (from_groups t) bs h)
  where
    option_some :
        (b : Bool) (o : Option Bytes) (x : Bytes) → (if b then none else o) ≡ some x → o ≡ some x
    option_some true o x k = absurd (ground arith)
    option_some false o x k = k

starts : (t : List ℕ) → starts_with compact_prefix t ≡ true → t ≡ compact_prefix ++ drop 4 t
starts t h =
    sym (take-append-drop 4 t) ∙ ap (λ x. x ++ drop 4 t) (same-eq (take 4 t) compact_prefix h)

-- The payload of an accepted text, as bytes.
decode_trimmed-inv :
    (t : List ℕ) (e : EnvelopeV2)
    → decode_trimmed t ≡ decoded e
    → (bs : Bytes) × (t ≡ compact_prefix ++ to_base64_url bs)
      × IsBytes bs
      × (decode_header bs ≡ decoded e)
unfolding decode_trimmed
decode_trimmed-inv t e h =
    let (s, h1) = passed (not (starts_with compact_prefix t)) malformed_envelope _ e h in
    let (_, h2) = passed (ltb max_compact_chars (length t)) malformed_envelope _ e h1 in
    let (_, h3) = passed (length (drop 4 t) == 0) malformed_envelope _ e h2 in
    let (_, h4) = passed (includes_unit b'=' (drop 4 t)) malformed_envelope _ e h3 in
    let (bs, q, ok, k) = of_payload (from_base64_url (drop 4 t)) refl h4 in
    (bs, starts t (ground arith) ∙ ap (λ x. compact_prefix ++ x) q, ok, k)
  where
    of_payload :
        (o : Option Bytes)
        → from_base64_url (drop 4 t) ≡ o
        → decode_payload (drop 4 t) o ≡ decoded e
        → (bs : Bytes) × (drop 4 t ≡ to_base64_url bs) × IsBytes bs × (decode_header bs ≡ decoded e)
    of_payload none q k = refused_not_decoded malformed_envelope e (unfold decode_payload in k)
    of_payload (some bs) q k = elim (Bool-cases (same (to_base64_url bs) (drop 4 t))) [
      | inl y ↦ (
        bs,
        sym (same-eq (to_base64_url bs) (drop 4 t) y),
        from_base64_url-IsBytes (drop 4 t) bs q,
        (subst (λ b. (if b then decode_header bs else refused malformed_envelope) ≡ decoded e) y
            (unfold decode_payload in k)),
      )
      | inr n ↦ refused_not_decoded malformed_envelope e (
          subst (λ b. (if b then decode_header bs else refused malformed_envelope) ≡ decoded e) n
            (unfold decode_payload in k))
    ]

pub decode_compact_envelope2_accepts :
    (t : List ℕ) (e : EnvelopeV2)
    → decode_compact_envelope2 t ≡ decoded e
    → (encode_compact_envelope2 e ≡ some (trim t)) × IsEnvelope e
unfolding encode_compact_envelope2 decode_compact_envelope2
decode_compact_envelope2_accepts t e h =
    let (bs, q, ok, k) = decode_trimmed-inv (trim t) e h in
    let (p, eb, ep, l, p_ok, v) = decode_header-inv bs e ok k in
    let hex : hex_to_bytes e.pair_id ≡ some p =
      ap hex_to_bytes ep ∙ hex_to_bytes-bytes_to_hex p p_ok in
    let l16 : (length p == 16) ≡ true = ground (arith, l) in
    (
      rw (encode_envelope2-IsEnvelope e v, hex, l16)
          (ap some (sym (q ∙ ap (λ x. compact_prefix ++ to_base64_url x) eb))),
      v,
    )

-- A text that the compact decoder accepts is, white space around it aside, the one text that the
-- encoder gives the envelope it decodes to.
pub decode_compact_envelope2_canonical :
    (t : List ℕ) (e : EnvelopeV2)
    → decode_compact_envelope2 t ≡ decoded e
    → encode_compact_envelope2 e ≡ some (trim t)
decode_compact_envelope2_canonical t e h = (decode_compact_envelope2_accepts t e h).0
