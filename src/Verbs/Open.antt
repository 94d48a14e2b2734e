-- ===== src/Verbs/Open.antt =====
-- `open` of src/cli/v2/truepad2.ts: verifying the record of an envelope and releasing its plaintext.
-- The decoder's answer on the input is an argument.
use true_pad.Base.Xor.{xor_bytes}
use true_pad.Direction.{Direction, same_direction}
use true_pad.Frame.{parse_frame}
use true_pad.Tag.{wc_tag, tags_equal}
use true_pad.Store.Head.{HeadV2, RecordSpec, variable, fixed}
use true_pad.Store.Journal.{JournalRecord, open_line}
use true_pad.Store.Load.{LoadedStore, read_auth_record, read_encryption}
use true_pad.Store.Write.{reserve_attempt, persist_auth_fail, commit_advance}
use true_pad.Envelope.{EnvelopeV2}
use true_pad.Verbs.Burn.{pair_id_of, advanced_head, fields_of}
use true_pad.Verbs.Outcome.{
  Reason, Outcome, refused, released, check, attempt, durable, ◌>>=◌, wrong_pair, wrong_direction,
  record_size_mismatch, sequence_retired, sequence_malformed, sequence_out_of_window,
  offset_retired, encryption_exhausted, sequence_contested, auth_failed,
}
use true_pad.Verbs.Pair.{Party, opening, direction_for, LoadedPair, half, require_not_frozen}
use true_pad.Verbs.Witness.{Witness, WitnessCounters, witness_preflight, witness_advance}
use true_pad.Base.{
  ℕ, ◌+◌, ◌-◌, ◌⊎◌, inl, inr, true, false, not, [], Bool, Bytes, ◌==◌, ltb, leb, if◌then◌else◌,
  same,
}

unfoldable pub decoded_envelope : Reason ⊎ EnvelopeV2 → Outcome EnvelopeV2
decoded_envelope (inl reason) = refused reason []
decoded_envelope (inr envelope) = released envelope []

-- A record of another size than the store's, where the store fixes one.
unfoldable pub is_wrong_size : RecordSpec → ℕ → Bool
is_wrong_size variable c = false
is_wrong_size (fixed bytes) c = not (c == bytes)

-- O0: the envelope is this pair's, of this direction and of this store's size.
unfoldable pub open_structural : LoadedStore → Direction → EnvelopeV2 → Outcome Unit
open_structural store direction envelope =
    check (not (same envelope.pair_id store.head.pair_id)) wrong_pair >>= λ _.
    check (not (same_direction envelope.direction direction)) wrong_direction >>= λ _.
    check (is_wrong_size store.head.record_policy envelope.ciphertext_length) record_size_mismatch

-- O1: the record is not retired and lies within the lookahead window and the budgets.
unfoldable pub open_window : LoadedStore → EnvelopeV2 → Outcome Unit
open_window store envelope =
    check (ltb envelope.sequence store.effective.next_sequence) sequence_retired >>= λ _.
    check (leb store.head.authentication.capacity_records envelope.sequence) sequence_malformed
    >>= λ _.
        check
          (leb (store.effective.next_sequence + store.head.authentication.max_auth_lookahead)
            envelope.sequence)
          sequence_out_of_window
        >>= λ _.
            check (ltb envelope.start_offset store.effective.next_offset) offset_retired >>= λ _.
            check
              (ltb store.head.encryption.capacity
                (envelope.start_offset + envelope.ciphertext_length))
              encryption_exhausted

-- O2: the freeze, the witness and the attempts left.
unfoldable pub open_gates : Witness → LoadedPair → LoadedStore → ℕ → Outcome Unit
open_gates w pair store sequence = require_not_frozen pair >>= λ _.
    witness_preflight store.head.rollback w store.effective >>= λ _.
    check (leb store.head.authentication.verify_attempt_limit (store.effective.attempts sequence))
      sequence_contested

abbrev pub set_at : ℕ → ℕ → (ℕ → ℕ) → ℕ → ℕ
set_at key value counts k = if key == k then value else counts k

-- The header that goes to `persistAuthFail`: the reconciled counts, not yet increased.
unfoldable pub fail_head : LoadedStore → ℕ → HeadV2
fail_head store sequence = record {
  pair_id = store.head.pair_id;
  direction = store.head.direction;
  encryption = store.head.encryption;
  authentication = store.head.authentication;
  record_policy = store.head.record_policy;
  rollback = store.head.rollback;
  verification = record {
    threshold = store.head.verification.threshold;
    failure_count = store.effective.failure_count;
    cleared_at_failure_count = store.head.verification.cleared_at_failure_count;
    per_sequence_attempts =
        if ltb 0 (store.effective.attempts sequence)
        then set_at sequence (store.effective.attempts sequence)
            store.head.verification.per_sequence_attempts
        else store.head.verification.per_sequence_attempts;
  };
}

-- O4 on a tag that does not verify.
unfoldable pub open_fail : LoadedStore → ℕ → Outcome Bytes
open_fail store sequence = do
  ws ← attempt (persist_auth_fail (fail_head store sequence) sequence)
  _ ← durable ws
  refused auth_failed []

-- The counts that the pruning of O5 leaves.
abbrev pub attempts_above : ℕ → (ℕ → ℕ) → ℕ → ℕ
attempts_above sequence counts k = if ltb sequence k then counts k else 0

abbrev pub opened_head : LoadedStore → EnvelopeV2 → HeadV2
opened_head store envelope =
    advanced_head store.head (envelope.start_offset + envelope.ciphertext_length)
      (envelope.sequence + 1)
      (attempts_above envelope.sequence store.head.verification.per_sequence_attempts)

abbrev pub opened_line : LoadedStore → EnvelopeV2 → JournalRecord
opened_line store envelope =
    open_line envelope.sequence envelope.start_offset envelope.ciphertext_length
      (envelope.start_offset - store.effective.next_offset)
      (envelope.start_offset + envelope.ciphertext_length) (envelope.sequence + 1)

abbrev pub opened_counters : LoadedStore → EnvelopeV2 → WitnessCounters
opened_counters store envelope = record {
  encryption_next_offset = envelope.start_offset + envelope.ciphertext_length;
  authentication_next_sequence = envelope.sequence + 1;
  attempts_reserved = store.effective.attempts_reserved + 1;
}

-- What is released of the decrypted bytes.
unfoldable pub unframed : RecordSpec → Bytes → Outcome Bytes
unframed variable plaintext = released plaintext []
unframed (fixed bytes) plaintext = attempt (parse_frame plaintext)

-- O5 and O6 on a tag that verifies.
unfoldable pub open_pass : Witness → Bytes → LoadedStore → EnvelopeV2 → Outcome Bytes
open_pass w secret store envelope = do
  pad ← attempt (read_encryption secret store.head envelope.start_offset envelope.ciphertext_length)
  _ ← durable (commit_advance (opened_head store envelope) (opened_line store envelope))
  _ ← witness_advance store.head.rollback w (opened_counters store envelope)
  unframed store.head.record_policy (xor_bytes envelope.ciphertext pad)

abbrev pub reserved_counters : LoadedStore → WitnessCounters
reserved_counters store = record {
  encryption_next_offset = store.effective.next_offset;
  authentication_next_sequence = store.effective.next_sequence;
  attempts_reserved = store.effective.attempts_reserved + 1;
}

-- O3: the reservation, durable before any verification, and the witness's advance.
unfoldable pub open_reserve : Witness → LoadedStore → ℕ → Outcome Unit
open_reserve w store sequence = do
  ws ← attempt (reserve_attempt sequence)
  _ ← durable ws
  witness_advance store.head.rollback w (reserved_counters store)

-- O4: the tag that the record's material gives.
unfoldable pub expected_tag : Bytes → LoadedStore → Direction → EnvelopeV2 → Outcome Bytes
expected_tag secret store direction envelope = do
  record_of ← attempt (read_auth_record secret store.head envelope.sequence)
  pair_id ← pair_id_of store.head
  attempt (
      wc_tag record_of.key record_of.mask
        (fields_of pair_id direction envelope.sequence envelope.start_offset envelope.ciphertext))

unfoldable pub open_verify : Witness → Bytes → LoadedStore → EnvelopeV2 → Bytes → Outcome Bytes
open_verify w secret store envelope tag = elim (tags_equal tag envelope.tag) [
  | true ↦ open_pass w secret store envelope
  | false ↦ open_fail store envelope.sequence
]

unfoldable pub open_envelope :
    Party → Reason ⊎ EnvelopeV2 → Witness → Bytes → LoadedPair → Outcome Bytes
open_envelope role decoded w secret pair = do
  let direction = direction_for role opening
  let store = half pair direction
  envelope ← decoded_envelope decoded
  _ ← open_structural store direction envelope
  _ ← open_window store envelope
  _ ← open_gates w pair store envelope.sequence
  _ ← open_reserve w store envelope.sequence
  tag ← expected_tag secret store direction envelope
  open_verify w secret store envelope tag
