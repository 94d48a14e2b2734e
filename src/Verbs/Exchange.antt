-- ===== src/Verbs/Exchange.antt =====
-- What `burn` of src/cli/v2/truepad2.ts seals, `open` releases.
use true_pad.Base.Xor.{xor_bytes, xor_bytes_cancel}
use true_pad.Tag.{wc_tag, max_ciphertext_bytes}
use true_pad.Tag.Verify.{wc_tag-length}
use true_pad.Store.Journal.{attempt_line}
use true_pad.Store.Load.{LoadedStore, read_auth_record, read_encryption}
use true_pad.Store.Write.{Write, journal_line, commit_advance}
use true_pad.Verbs.Outcome.{released, proceed, before, released_then, free_then}
use true_pad.Verbs.Pair.{
  Party, burning, opening, direction_for, LoadedPair, half, require_not_frozen,
}
use true_pad.Verbs.Witness.{Witness, WitnessCounters, witness_preflight, witness_advance}
use true_pad.Envelope.{EnvelopeV2}
use true_pad.Verbs.Burn.{burn}
use true_pad.Verbs.Open.{
  decoded_envelope, is_wrong_size, open_structural, open_window, open_gates, opened_head,
  opened_line, unframed, open_pass, open_reserve, expected_tag, open_envelope,
}
use true_pad.Verbs.Sent.{burn_inv}
use true_pad.Base.{
  ◌+◌, ◌≤◌, ◌<◌, ◌≡◌, inr, refl, sym, ap, ap₂, subst, ◌∙◌, List, [], ◌∷◌, ◌++◌, arith, Bytes,
  length, max_safe,
}
use true_pad.Verbs.Passes.{
  expected_passes, fields_eq, gates_pass, pass_releases, payload_opens, read_encryption-length,
  reserve_passes, same_material, structural_passes, verify_passes, window_passes,
}

-- A receiving store that can open the next record of the sender's store: it is of the same pair, the
-- record is within its window, and nothing holds it up.
pub record IsReady (sender receiver : LoadedStore) (pair : LoadedPair) (w : Witness) : Type 0 where
  pub same_pair : receiver.head.pair_id ≡ sender.head.pair_id
  pub same_capacity : receiver.head.encryption.capacity ≡ sender.head.encryption.capacity
  pub same_records :
      receiver.head.authentication.capacity_records ≡ sender.head.authentication.capacity_records
  pub same_policy : receiver.head.record_policy ≡ sender.head.record_policy
  pub sequence_not_retired : receiver.effective.next_sequence ≤ sender.effective.next_sequence
  pub sequence_in_window :
      sender.effective.next_sequence
      < receiver.effective.next_sequence + receiver.head.authentication.max_auth_lookahead
  pub offset_not_retired : receiver.effective.next_offset ≤ sender.effective.next_offset
  pub attempts_left :
      receiver.effective.attempts sender.effective.next_sequence
      < receiver.head.authentication.verify_attempt_limit
  pub not_frozen : require_not_frozen pair ≡ proceed
  pub witness_passes : witness_preflight receiver.head.rollback w receiver.effective ≡ proceed
  pub witness_advances :
      (c : WitnessCounters) → witness_advance receiver.head.rollback w c ≡ proceed

-- The parts of `open`, put together.
open_passes :
    (role : Party) (w : Witness) (secret : Bytes) (pair : LoadedPair) (e : EnvelopeV2) (p : Bytes)
    (line : List Write) (ws : List Write)
    → open_structural (half pair (direction_for role opening)) (direction_for role opening) e
      ≡ proceed
    → open_window (half pair (direction_for role opening)) e ≡ proceed
    → open_gates w pair (half pair (direction_for role opening)) e.sequence ≡ proceed
    → open_reserve w (half pair (direction_for role opening)) e.sequence ≡ released tt line
    → expected_tag secret (half pair (direction_for role opening)) (direction_for role opening) e
      ≡ released e.tag []
    → length e.tag ≡ 16
    → open_pass w secret (half pair (direction_for role opening)) e ≡ released p ws
    → open_envelope role (inr e) w secret pair ≡ released p (line ++ ws)
unfolding open_envelope decoded_envelope before
open_passes role w secret pair e p line ws a b c d f l g =
    free_then _ _ e refl
    ∙ free_then _ _ tt a
    ∙ free_then _ _ tt b
    ∙ free_then _ _ tt c
    ∙ released_then _ _ tt line d
    ∙ ap (before line) (
        free_then _ _ e.tag f
        ∙ verify_passes w secret (half pair (direction_for role opening)) e l
        ∙ g)

-- An envelope that `burn` gives out, opened by the other party from the same secret body on a store
-- that is ready for it, releases exactly the plaintext, on stores of variable and of fixed records;
-- the writes are the reservation and the commit.
pub open_envelope-burn :
    (role role' : Party) (p : Bytes) (w w' : Witness) (secret : Bytes) (pair pair' : LoadedPair)
    (e : EnvelopeV2) (ws : List Write)
    → direction_for role' opening ≡ direction_for role burning
    → burn role p w secret pair ≡ released e ws
    → (half pair (direction_for role burning)).head.authentication.max_ciphertext
      ≡ max_ciphertext_bytes
    → e.sequence ≤ max_safe
    → IsReady
        (half pair (direction_for role burning))
        (half pair' (direction_for role' opening))
        pair'
        w'
    → open_envelope role' (inr e) w' secret pair'
      ≡ released p (
          journal_line (attempt_line e.sequence)
          ∷ commit_advance
              (opened_head (half pair' (direction_for role' opening)) e)
              (opened_line (half pair' (direction_for role' opening)) e))
open_envelope-burn role role' p w w' secret pair pair' e ws same_way b pinned safe ready =
    let x = burn_inv role p w secret pair e ws b in
    let y = x.staged in
    let d = direction_for role' opening in
    let s = half pair (direction_for role burning) in
    let r = half pair' d in
    let size = x.size_bound in
    let (sized, unframes) = payload_opens s.head.record_policy p x.payload x.framed (omega arith) in
    let (m_eq, p_eq, id_eq) =
      same_material secret s.head r.head e.sequence e.start_offset e.ciphertext_length
        ready.same_capacity ready.same_records ready.same_pair in
    let lp =
      read_encryption-length secret s.head s.effective.next_offset (length x.payload) y.pad
        y.pad_read in
    let sq = y.sequence_eq in
    let st = y.start_eq in
    let ln = y.length_eq in
    let structural : open_structural r d e ≡ proceed =
      structural_passes r d e (ready.same_pair ∙ y.pair_id_eq) (same_way ∙ y.direction_eq)
        (ap₂ is_wrong_size ready.same_policy (sym ln) ∙ sized) in
    let window : open_window r e ≡ proceed =
      let left = x.record_left in
      let fits = x.window_fits in
      let records = ready.same_records in
      let capacity = ready.same_capacity in
      let a = ready.sequence_not_retired in
      let b' = ready.sequence_in_window in
      let c = ready.offset_not_retired in
      window_passes r e (omega arith) (omega arith) (omega arith) (omega arith) (omega arith) in
    let gates : open_gates w' pair' r e.sequence ≡ proceed =
      gates_pass w' pair' r e.sequence ready.not_frozen ready.witness_passes (
        subst (λ n. r.effective.attempts n < r.head.authentication.verify_attempt_limit) sq
          ready.attempts_left) in
    let reserve = reserve_passes w' r e.sequence safe (ready.witness_advances _) in
    let tag =
      ap (wc_tag y.material.key y.material.mask) (
        fields_eq y.pair_id d (direction_for role burning) e.sequence s.effective.next_sequence
          e.start_offset s.effective.next_offset e.ciphertext (xor_bytes x.payload y.pad) same_way
          (sym sq) (sym st) (sym y.ciphertext_eq))
      ∙ y.tag_made in
    let expected =
      expected_passes secret r d e y.material y.pair_id e.tag
        (m_eq ∙ ap (read_auth_record secret s.head) (sym sq) ∙ y.material_read)
        (id_eq ∙ y.pair_id_read) tag in
    let plain : xor_bytes e.ciphertext y.pad ≡ x.payload =
      ap (λ c. xor_bytes c y.pad) (sym y.ciphertext_eq)
      ∙ xor_bytes_cancel x.payload y.pad (omega arith) in
    let passes =
      pass_releases w' secret r e y.pad p
        (p_eq ∙ ap₂ (read_encryption secret s.head) (sym st) (sym ln) ∙ y.pad_read)
        (ready.witness_advances _) (ap₂ unframed ready.same_policy plain ∙ unframes) in
    open_passes role' w' secret pair' e p (journal_line (attempt_line e.sequence) ∷ [])
      (commit_advance (opened_head r e) (opened_line r e)) structural window gates reserve expected
      (wc_tag-length _ _ e.tag _ tag) passes
