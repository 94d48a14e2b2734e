-- ===== src/Verbs/Burn.antt =====
-- `burn` of src/cli/v2/truepad2.ts: sealing a plaintext as the next record of a direction.
use true_pad.Envelope.{EnvelopeV2}
use true_pad.Codec.Hex.{hex_to_bytes}
use true_pad.Base.Xor.{xor_bytes}
use true_pad.Direction.{Direction}
use true_pad.Frame.{frame_capacity, build_frame}
use true_pad.Tag.{CanonicalFields, wc_tag}
use true_pad.Store.Head.{HeadV2, RecordSpec, variable, fixed}
use true_pad.Store.Journal.{JournalRecord, send_line}
use true_pad.Store.Load.{LoadedStore, read_auth_record, read_encryption}
use true_pad.Store.Write.{commit_advance}
use true_pad.Verbs.Outcome.{
  Outcome, refused, released, check, attempt, durable, ◌>>=◌, corrupt_head, record_size_mismatch,
  oversize_ciphertext, auth_exhausted, encryption_exhausted,
}
use true_pad.Verbs.Pair.{Party, burning, direction_for, LoadedPair, half, require_not_frozen}
use true_pad.Verbs.Witness.{Witness, WitnessCounters, witness_preflight, witness_advance}
use true_pad.Base.{ℕ, ◌+◌, [], Option, none, some, Bytes, length, ◌==◌, ltb, leb, if◌then◌else◌}

-- The plaintext itself, or its frame on a store of fixed records.
unfoldable pub burn_payload : RecordSpec → Bytes → Outcome Bytes
burn_payload variable plaintext = released plaintext []
burn_payload (fixed bytes) plaintext =
    check (ltb (frame_capacity bytes) (length plaintext)) record_size_mismatch >>= λ _.
    attempt (build_frame plaintext bytes)

-- `hexToBytes(head.pairId)`, which must be sixteen bytes.
unfoldable pub valid_pair_id : Option Bytes → Outcome Bytes
valid_pair_id none = refused corrupt_head []
valid_pair_id (some bytes) =
    if length bytes == 16 then released bytes [] else refused corrupt_head []

unfoldable pub pair_id_of : HeadV2 → Outcome Bytes
pair_id_of head = valid_pair_id (hex_to_bytes head.pair_id)

-- `{ ...head, encryption: …, authentication: …, verification: … }` of the verbs that advance.
abbrev pub advanced_head : HeadV2 → ℕ → ℕ → (ℕ → ℕ) → HeadV2
advanced_head head next_offset next_sequence attempts = record {
  pair_id = head.pair_id;
  direction = head.direction;
  encryption = record { capacity = head.encryption.capacity; next_offset = next_offset };
  authentication = record {
    capacity_records = head.authentication.capacity_records;
    next_sequence = next_sequence;
    verify_attempt_limit = head.authentication.verify_attempt_limit;
    max_ciphertext = head.authentication.max_ciphertext;
    max_auth_lookahead = head.authentication.max_auth_lookahead;
  };
  record_policy = head.record_policy;
  rollback = head.rollback;
  verification = record {
    threshold = head.verification.threshold;
    failure_count = head.verification.failure_count;
    cleared_at_failure_count = head.verification.cleared_at_failure_count;
    per_sequence_attempts = attempts;
  };
}

-- The window of the next record, which must lie within both budgets.
unfoldable pub burn_checks : LoadedStore → ℕ → Outcome Unit
burn_checks store c =
    check (ltb store.head.authentication.max_ciphertext c) oversize_ciphertext >>= λ _.
    check (leb store.head.authentication.capacity_records store.effective.next_sequence)
      auth_exhausted
    >>= λ _.
        check (ltb store.head.encryption.capacity (store.effective.next_offset + c))
          encryption_exhausted

abbrev pub fields_of : Bytes → Direction → ℕ → ℕ → Bytes → CanonicalFields
fields_of pair_id direction sequence start_offset ciphertext = record {
  pair_id = pair_id;
  direction = direction;
  sequence = sequence;
  start_offset = start_offset;
  ciphertext = ciphertext;
}

-- S1: the envelope, staged in memory.
unfoldable pub burn_staged : Bytes → LoadedStore → Direction → Bytes → Outcome EnvelopeV2
burn_staged secret store direction payload = do
  let sequence = store.effective.next_sequence
  let start_offset = store.effective.next_offset
  record_of ← attempt (read_auth_record secret store.head sequence)
  pad ← attempt (read_encryption secret store.head start_offset (length payload))
  pair_id ← pair_id_of store.head
  let ciphertext = xor_bytes payload pad
  tag ← attempt (
      wc_tag record_of.key record_of.mask
        (fields_of pair_id direction sequence start_offset ciphertext))
  released
      (record {
        pair_id = store.head.pair_id;
        direction = direction;
        sequence = sequence;
        start_offset = start_offset;
        ciphertext_length = length payload;
        ciphertext = ciphertext;
        tag = tag;
      })
      []

-- S2: the header and the journal line that retire the window of `c` bytes and its record.
abbrev pub sent_head : LoadedStore → ℕ → HeadV2
sent_head store c =
    advanced_head store.head (store.effective.next_offset + c) (store.effective.next_sequence + 1)
      store.head.verification.per_sequence_attempts

abbrev pub sent_line : LoadedStore → ℕ → JournalRecord
sent_line store c =
    send_line store.effective.next_sequence store.effective.next_offset c
      (store.effective.next_offset + c) (store.effective.next_sequence + 1)

abbrev pub sent_counters : LoadedStore → ℕ → WitnessCounters
sent_counters store c = record {
  encryption_next_offset = store.effective.next_offset + c;
  authentication_next_sequence = store.effective.next_sequence + 1;
  attempts_reserved = store.effective.attempts_reserved;
}

-- The durable commit, the witness's advance and only then the envelope.
unfoldable pub burn_commit : Witness → LoadedStore → ℕ → EnvelopeV2 → Outcome EnvelopeV2
burn_commit w store c envelope =
    durable (commit_advance (sent_head store c) (sent_line store c)) >>= λ _.
    witness_advance store.head.rollback w (sent_counters store c) >>= λ _. released envelope []

unfoldable pub burn : Party → Bytes → Witness → Bytes → LoadedPair → Outcome EnvelopeV2
burn role plaintext w secret pair = do
  let direction = direction_for role burning
  let store = half pair direction
  _ ← require_not_frozen pair
  _ ← witness_preflight store.head.rollback w store.effective
  payload ← burn_payload store.head.record_policy plaintext
  _ ← burn_checks store (length payload)
  envelope ← burn_staged secret store direction payload
  burn_commit w store (length payload) envelope
