-- ===== src/Verbs/Opened.antt =====
-- What a plaintext that `open` of src/cli/v2/truepad2.ts releases says of its envelope.
use true_pad.Direction.{Direction}
use true_pad.Tag.{tags_equal}
use true_pad.Tag.Verify.{tags_equal_iff}
use true_pad.Store.Load.{LoadedStore}
use true_pad.Store.Write.{Write}
use true_pad.Verbs.Outcome.{
  refused, released, attempt, durable, free_then, bind_free_inv, bind_released_inv, check-released,
  auth_failed,
}
use true_pad.Verbs.Pair.{Party, opening, direction_for, LoadedPair, half, require_not_frozen}
use true_pad.Verbs.Witness.{Witness, witness_preflight, writes_of-witness_preflight}
use true_pad.Envelope.{EnvelopeV2}
use true_pad.Verbs.Open.{
  decoded_envelope, open_structural, open_window, open_gates, open_fail, open_pass, open_reserve,
  expected_tag, open_verify, open_envelope,
}
use true_pad.Verbs.Safe.{writes_of-require_not_frozen}
use true_pad.Verbs.Safe.Parts.{
  writes_of-open_structural, writes_of-open_window, writes_of-open_gates, writes_of-expected_tag,
  open_window_inv,
}
use true_pad.Base.{
  ℕ, ◌+◌, ◌≤◌, ◌<◌, ◌≡◌, ◌≢◌, inr, refl, sym, ap, ◌∙◌, true, false, List, [], Bool, arith, Bytes,
}

-- An envelope whose plaintext may be released.
pub record IsAccepted (secret : Bytes) (store : LoadedStore) (d : Direction) (e : EnvelopeV2)
    : Type 0 where
  pub not_retired : store.effective.next_sequence ≤ e.sequence
  pub exists : e.sequence < store.head.authentication.capacity_records
  pub in_window :
      e.sequence < store.effective.next_sequence + store.head.authentication.max_auth_lookahead
  pub offset_not_retired : store.effective.next_offset ≤ e.start_offset
  pub within_pad : e.start_offset + e.ciphertext_length ≤ store.head.encryption.capacity
  pub attempts_left :
      store.effective.attempts e.sequence < store.head.authentication.verify_attempt_limit
  pub authentic : expected_tag secret store d e ≡ released e.tag []

pub gates_inv :
    (w : Witness) (pair : LoadedPair) (store : LoadedStore) (n : ℕ) (u : Unit)
    → open_gates w pair store n ≡ released u []
    → store.effective.attempts n < store.head.authentication.verify_attempt_limit
unfolding open_gates
gates_inv w pair store n u h =
    let (_, _, h1) =
      bind_free_inv (require_not_frozen pair) _ u [] (writes_of-require_not_frozen pair) h in
    let (_, _, h2) =
      bind_free_inv (witness_preflight _ _ _) _ u [] (writes_of-witness_preflight _ _ _) h1 in
    let c = check-released _ _ [] h2 in ground arith

open_fail-never :
    (store : LoadedStore) (n : ℕ) (p : Bytes) (ws : List Write) → open_fail store n ≢ released p ws
unfolding open_fail
open_fail-never store n p ws h =
    let (vs, _, us, _, k, _) = bind_released_inv (attempt _) _ p ws h in
    let (_, _, xs, _, m, _) = bind_released_inv (durable vs) _ p us k in never xs m
  where
    never : (xs : List Write) → refused auth_failed [] ≢ released p xs
    never xs q = ground arith

verify_inv :
    (w : Witness) (secret : Bytes) (store : LoadedStore) (e : EnvelopeV2) (tag p : Bytes)
    (ws : List Write)
    → open_verify w secret store e tag ≡ released p ws
    → tag ≡ e.tag
unfolding open_verify
verify_inv w secret store e tag p ws h =
    ((tags_equal_iff tag e.tag).0 (accepts (tags_equal tag e.tag) h)).0
  where
    accepts :
        (b : Bool)
        → (elim b [ true ↦ open_pass w secret store e | false ↦ open_fail store e.sequence ])
          ≡ released p ws
        → b ≡ true
    accepts true q = refl
    accepts false q = absurd (open_fail-never store e.sequence p ws q)

-- A plaintext is released only for an envelope whose record is not retired and within the window, whose
-- record has attempts left, and whose tag is the one that the record's key and mask give.
pub open_envelope_inv :
    (role : Party) (e : EnvelopeV2) (w : Witness) (secret : Bytes) (pair : LoadedPair) (p : Bytes)
    (ws : List Write)
    → open_envelope role (inr e) w secret pair ≡ released p ws
    → IsAccepted secret (half pair (direction_for role opening)) (direction_for role opening) e
unfolding open_envelope decoded_envelope
open_envelope_inv role e w secret pair p ws h =
    let d = direction_for role opening in
    let store = half pair d in
    let h1 = sym (free_then (decoded_envelope (inr e)) _ e refl) ∙ h in
    let (_, _, h2) =
      bind_free_inv (open_structural store d e) _ p ws (writes_of-open_structural store d e) h1 in
    let (u, window, h3) =
      bind_free_inv (open_window store e) _ p ws (writes_of-open_window store e) h2 in
    let (v, gates, h4) =
      bind_free_inv (open_gates w pair store e.sequence) _ p ws
        (writes_of-open_gates w pair store e.sequence) h3 in
    let (_, _, xs, _, h5, _) = bind_released_inv (open_reserve w store e.sequence) _ p ws h4 in
    let (tag, made, h6) =
      bind_free_inv (expected_tag secret store d e) _ p xs (writes_of-expected_tag secret store d e)
        h5 in
    let same_tag = verify_inv w secret store e tag p xs h6 in
    let (a, b, c, o, g) = open_window_inv store e u [] window in
    record {
      not_retired = a;
      exists = b;
      in_window = c;
      offset_not_retired = o;
      within_pad = g;
      attempts_left = gates_inv w pair store e.sequence v gates;
      authentic = made ∙ ap (λ t. released t []) same_tag;
    }
