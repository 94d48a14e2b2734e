-- ===== src/Verbs/Sent.antt =====
-- What a released envelope of `burn` of src/cli/v2/truepad2.ts says of the store it comes from.
use true_pad.Direction.{Direction}
use true_pad.Base.Xor.{xor_bytes}
use true_pad.Tag.{wc_tag}
use true_pad.Partition.{AuthRecord}
use true_pad.Store.Load.{LoadedStore, read_auth_record, read_encryption}
use true_pad.Store.Write.{Write, commit_advance}
use true_pad.Verbs.Outcome.{
  released, attempt, durable, writes_of, writes_of-attempt, bind_free_inv, released-injective,
  attempt-released, bind_released_inv,
}
use true_pad.Verbs.Pair.{Party, burning, direction_for, LoadedPair, half, require_not_frozen}
use true_pad.Verbs.Witness.{
  Witness, witness_preflight, witness_advance, writes_of-witness_preflight,
}
use true_pad.Envelope.{EnvelopeV2}
use true_pad.Verbs.Burn.{
  burn_payload, pair_id_of, burn_checks, burn_staged, burn_commit, burn, sent_head, sent_line,
  fields_of,
}
use true_pad.Verbs.Safe.{
  writes_of-require_not_frozen, writes_of-burn_payload, writes_of-pair_id_of, writes_of-burn_checks,
  burn_checks_inv, writes_of-burn_staged, writes_of-burn_commit,
}
use true_pad.Base.{ℕ, ◌+◌, ◌≤◌, ◌<◌, ◌≡◌, sym, ap, subst, ◌∙◌, List, [], some, Bytes, length}

-- The parts of a staged envelope.
pub record IsStaged (secret : Bytes) (store : LoadedStore) (d : Direction) (payload : Bytes)
    (e : EnvelopeV2) : Type 0 where
  pub material : AuthRecord
  pub pad : Bytes
  pub pair_id : Bytes
  pub material_read :
      read_auth_record secret store.head store.effective.next_sequence ≡ some material
  pub pad_read :
      read_encryption secret store.head store.effective.next_offset (length payload) ≡ some pad
  pub pair_id_read : pair_id_of store.head ≡ released pair_id []
  pub tag_made :
      wc_tag material.key material.mask (
        fields_of pair_id d store.effective.next_sequence store.effective.next_offset
          (xor_bytes payload pad))
      ≡ some e.tag
  pub pair_id_eq : store.head.pair_id ≡ e.pair_id
  pub direction_eq : d ≡ e.direction
  pub sequence_eq : store.effective.next_sequence ≡ e.sequence
  pub start_eq : store.effective.next_offset ≡ e.start_offset
  pub length_eq : length payload ≡ e.ciphertext_length
  pub ciphertext_eq : xor_bytes payload pad ≡ e.ciphertext

burn_staged_inv :
    (secret : Bytes) (store : LoadedStore) (d : Direction) (payload : Bytes) (e : EnvelopeV2)
    → burn_staged secret store d payload ≡ released e []
    → IsStaged secret store d payload e
unfolding burn_staged writes_of
burn_staged_inv secret store d payload e h =
    let (m, m_read, h1) = bind_free_inv (attempt _) _ e [] (writes_of-attempt _) h in
    let (pad, p_read, h2) = bind_free_inv (attempt _) _ e [] (writes_of-attempt _) h1 in
    let (pair_id, id_read, h3) =
      bind_free_inv (pair_id_of store.head) _ e [] (writes_of-pair_id_of store.head) h2 in
    let (tag, t_made, h4) = bind_free_inv (attempt _) _ e [] (writes_of-attempt _) h3 in
    let (q, _) = released-injective _ e [] [] h4 in
    record {
      material = m;
      pad = pad;
      pair_id = pair_id;
      material_read = (attempt-released _ m [] m_read).0;
      pad_read = (attempt-released _ pad [] p_read).0;
      pair_id_read = id_read;
      tag_made = (attempt-released _ tag [] t_made).0 ∙ ap (λ x. some x.tag) q;
      pair_id_eq = ap (λ x. x.pair_id) q;
      direction_eq = ap (λ x. x.direction) q;
      sequence_eq = ap (λ x. x.sequence) q;
      start_eq = ap (λ x. x.start_offset) q;
      length_eq = ap (λ x. x.ciphertext_length) q;
      ciphertext_eq = ap (λ x. x.ciphertext) q;
    }

-- A burn that gives out an envelope.
pub record IsSent (secret : Bytes) (pair : LoadedPair) (role : Party) (plaintext : Bytes)
    (e : EnvelopeV2) (ws : List Write) : Type 0 where
  pub payload : Bytes
  pub framed :
      burn_payload (half pair (direction_for role burning)).head.record_policy plaintext
      ≡ released payload []
  pub staged :
      IsStaged secret
        (half pair (direction_for role burning))
        (direction_for role burning)
        payload
        e
  pub size_bound :
      length payload ≤ (half pair (direction_for role burning)).head.authentication.max_ciphertext
  pub record_left :
      (half pair (direction_for role burning)).effective.next_sequence
      < (half pair (direction_for role burning)).head.authentication.capacity_records
  pub window_fits :
      (half pair (direction_for role burning)).effective.next_offset + length payload
      ≤ (half pair (direction_for role burning)).head.encryption.capacity
  pub writes_eq :
      ws
      ≡ commit_advance
          (sent_head (half pair (direction_for role burning)) (length payload))
          (sent_line (half pair (direction_for role burning)) (length payload))

burn_commit_inv :
    (w : Witness) (store : LoadedStore) (c : ℕ) (f e : EnvelopeV2) (ws : List Write)
    → burn_commit w store c f ≡ released e ws
    → (f ≡ e) × (ws ≡ commit_advance (sent_head store c) (sent_line store c))
unfolding burn_commit writes_of
burn_commit_inv w store c f e ws h =
    let (_, _, vs, _, k, _) = bind_released_inv (durable _) _ e ws h in
    let (_, _, us, _, m, _) = bind_released_inv (witness_advance _ _ _) _ e vs k in
    ((released-injective f e [] us m).0, sym (ap writes_of h) ∙ writes_of-burn_commit w store c f)

-- A burn that gives out an envelope has sealed the payload with the next record and the next window of
-- the pad, within all bounds, and its writes are those of the commit.
pub burn_inv :
    (role : Party) (p : Bytes) (w : Witness) (secret : Bytes) (pair : LoadedPair) (e : EnvelopeV2)
    (ws : List Write)
    → burn role p w secret pair ≡ released e ws
    → IsSent secret pair role p e ws
unfolding burn
burn_inv role p w secret pair e ws h =
    let d = direction_for role burning in
    let store = half pair d in
    let (_, _, h1) =
      bind_free_inv (require_not_frozen pair) _ e ws (writes_of-require_not_frozen pair) h in
    let (_, _, h2) =
      bind_free_inv (witness_preflight _ _ _) _ e ws (writes_of-witness_preflight _ _ _) h1 in
    let (payload, framed, h3) =
      bind_free_inv (burn_payload _ p) _ e ws (writes_of-burn_payload _ p) h2 in
    let (u, checked, h4) =
      bind_free_inv (burn_checks store (length payload)) _ e ws
        (writes_of-burn_checks store (length payload)) h3 in
    let (f, made, h5) =
      bind_free_inv (burn_staged secret store d payload) _ e ws
        (writes_of-burn_staged secret store d payload) h4 in
    let (same_envelope, same_writes) = burn_commit_inv w store (length payload) f e ws h5 in
    let (a, b, c) = burn_checks_inv store (length payload) u checked in
    record {
      payload = payload;
      framed = framed;
      staged =
          subst (IsStaged secret store d payload) same_envelope
            (burn_staged_inv secret store d payload f made);
      size_bound = a;
      record_left = b;
      window_fits = c;
      writes_eq = same_writes;
    }
