-- ===== src/Verbs/Transported.antt =====
-- `open` of src/cli/v2/truepad2.ts on the text of an envelope, and what `burn` prints for it.
use true_pad.Base.{ℕ, ◌≡◌, ◌⊎◌, inl, inr, ap, ◌∙◌, List, ◌∷◌, some, Bytes, IsBytes}
use true_pad.Tag.{max_ciphertext_bytes}
use true_pad.Envelope.{EnvelopeV2, encode_envelope2}
use true_pad.Envelope.Decode.{Envelope2Decode, decoded}
use true_pad.Envelope.Decode
use true_pad.Envelope.Compact.{encode_compact_envelope2, decode_envelope_transport2}
use true_pad.Envelope.Compact.Transport.{decode_envelope_transport2-encode}
use true_pad.Store.Journal.{attempt_line}
use true_pad.Store.Write.{Write, journal_line, commit_advance}
use true_pad.Verbs.Outcome.{
  Outcome, Reason, envelope_v1, malformed_envelope, oversize_ciphertext, released,
}
use true_pad.Verbs.Pair.{Party, burning, opening, direction_for, LoadedPair, half}
use true_pad.Verbs.Witness.{Witness}
use true_pad.Verbs.Burn.{burn}
use true_pad.Verbs.Open.{opened_head, opened_line, open_envelope}
use true_pad.Verbs.Exchange.{IsReady, open_envelope-burn}
use true_pad.Verbs.Printable.{burn-IsEnvelope}

-- `throw new Refused2(decoded.reason, …)`, or the envelope.
abbrev pub transport_reason : Decode.Envelope2Refusal → Reason
transport_reason Decode.envelope_v1 = envelope_v1
transport_reason Decode.malformed_envelope = malformed_envelope
transport_reason Decode.oversize_ciphertext = oversize_ciphertext

abbrev pub received : Envelope2Decode → Reason ⊎ EnvelopeV2
received (decoded e) = inr e
received (Decode.refused r) = inl (transport_reason r)

-- The whole of `open`, from the text of the envelope on.
unfoldable pub open_text : Party → List ℕ → Witness → Bytes → LoadedPair → Outcome Bytes
open_text role text w secret pair =
    open_envelope role (received (decode_envelope_transport2 text)) w secret pair

-- What the receiving party's `open` gives on the text of an envelope: the plaintext, after the
-- reservation and the commit.
abbrev pub opened : Party → LoadedPair → EnvelopeV2 → Bytes → Outcome Bytes
opened role pair e p =
    let store = half pair (direction_for role opening) in
    released p (
      journal_line (attempt_line e.sequence)
      ∷ commit_advance (opened_head store e) (opened_line store e))

-- An envelope that `burn` gives out prints, as JSON and in the compact form, and `open` of the other
-- party on either text releases exactly the plaintext: for a plaintext and a secret body of bytes, a
-- sender with the ciphertext bound of the format, and a receiver that is ready for the record.
pub open_text-burn :
    (role role' : Party) (p : Bytes) (w w' : Witness) (secret : Bytes) (pair pair' : LoadedPair)
    (e : EnvelopeV2) (ws : List Write)
    → direction_for role' opening ≡ direction_for role burning
    → burn role p w secret pair ≡ released e ws
    → IsBytes p
    → IsBytes secret
    → (half pair (direction_for role burning)).head.authentication.max_ciphertext
      ≡ max_ciphertext_bytes
    → IsReady
        (half pair (direction_for role burning))
        (half pair' (direction_for role' opening))
        pair'
        w'
    → (json : List ℕ) × (compact : List ℕ) × (encode_envelope2 e ≡ some json)
      × (encode_compact_envelope2 e ≡ some compact)
      × (open_text role' json w' secret pair' ≡ opened role' pair' e p)
      × (open_text role' compact w' secret pair' ≡ opened role' pair' e p)
unfolding open_text
open_text-burn role role' p w w' secret pair pair' e ws same_way b p_ok s_ok pinned ready =
    let v = burn-IsEnvelope role p w secret pair e ws b p_ok s_ok pinned in
    let (json, compact, made, spelled, read, read') = decode_envelope_transport2-encode e v in
    let opens =
      open_envelope-burn role role' p w w' secret pair pair' e ws same_way b pinned v.sequence
        ready in
    (
      json,
      compact,
      made,
      spelled,
      ap (λ d. open_envelope role' (received d) w' secret pair') read ∙ opens,
      ap (λ d. open_envelope role' (received d) w' secret pair') read' ∙ opens,
    )
