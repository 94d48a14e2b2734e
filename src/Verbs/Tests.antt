-- ===== src/Verbs/Tests.antt =====
-- The verbs' theorems on a small pair.
use true_pad.Direction.{a_to_b}
use true_pad.Store.Samples.{sample_head, sample_secret, sample_dir, sample_store}
use true_pad.Store.Valid.{is_valid_head, has_fixed_domains, is_policy, is_rollback}
use true_pad.Envelope.{is_hex32, all_hex}
use true_pad.Store.Load.{
  LoadedStore, load_store, load_head, load_files, reconcile_journal, reconcile, effective_state,
  secret_length, read_auth_record, read_encryption,
}
use true_pad.Store.Journal.{read_journal, read_lines, take_record, attempt_line}
use true_pad.Store.Safe.{IsSafe, IsForward}
use true_pad.Store.Write.{Write, journal_line, run, commit_advance}
use true_pad.Verbs.Outcome.{released, writes_of, check, before, attempt, ◌>>=◌}
use true_pad.Verbs.Pair.{
  party_a, party_b, direction_for, LoadedPair, half, require_not_frozen, frozen_half,
}
use true_pad.Verbs.Witness.{Witness, witness_preflight, witness_advance}
use true_pad.Base.{every_byte-IsBytes, ℕ}
use true_pad.Envelope.Compact.{encode_compact_envelope2}
use true_pad.Verbs.Transported.{open_text, opened, open_text-burn}
use true_pad.Envelope.{EnvelopeV2, encode_envelope2}
use true_pad.Verbs.Burn.{
  sent_head, sent_line, burn, burn_payload, burn_checks, burn_staged, burn_commit, pair_id_of,
  valid_pair_id,
}
use true_pad.Verbs.Safe.{IsLoaded, burn-IsSafe}
use true_pad.Verbs.Safe.Opening.{open_envelope-IsSafe}
use true_pad.Verbs.Safe.Retiring.{retire-IsSafe}
use true_pad.Verbs.Open.{open_envelope, opened_head, opened_line}
use true_pad.Verbs.Operator.{retire}
use true_pad.Verbs.Refused.{burn_refused, retire_refused}
use true_pad.Verbs.Opened.{IsAccepted, open_envelope_inv}
use true_pad.Verbs.Outcome.{encryption_exhausted, sequence_malformed}
use true_pad.Base.Buffer.{zeros}
use true_pad.Verbs.History.{History, started, sent, verbs_run}
use true_pad.Verbs.History.Attempts.{History-attempts}
use true_pad.Store.Metered.{AtMost}
use true_pad.Verbs.History.NoReuse.{IsBelow, IsFresh, load_store-burn, History-no_reuse}
use true_pad.Codec.Hex.{hex_to_bytes, is_hex, is_hex_digit, hex_pairs, hex_value}
use true_pad.Field.{
  polyval, bytes_to_field, read_le, field_to_bytes, write_le, polyval_blocks, dot, gf_mul,
  mul_rounds, times_x,
}
use true_pad.Tag.{wc_tag, wc_hash, canonical_bytes, u64le}
use true_pad.Base.Buffer.{set_bytes}
use true_pad.Verbs.Exchange.{IsReady, open_envelope-burn}
use true_pad.Base.{◌≤◌, ◌≡◌, inr, refl, true, List, [], ◌∷◌, none, some, arith, Bytes, All}

abbrev sample_pair : LoadedPair
sample_pair = record { ab = sample_store; ba = sample_store }

abbrev no_file : Witness
no_file = record { reading = inr none; advance = λ c. true }

abbrev word : Bytes
word = 104 ∷ 105 ∷ []

abbrev sample_envelope : EnvelopeV2
sample_envelope = record {
  pair_id = sample_head.pair_id;
  direction = a_to_b;
  sequence = 0;
  start_offset = 0;
  ciphertext_length = 2;
  ciphertext = 161 ∷ 160 ∷ [];
  tag = 164 ∷ 141 ∷ 88 ∷ 16 ∷ 204 ∷ 174 ∷ 7 ∷ 86 ∷ 43 ∷ 85 ∷ 58 ∷ 149 ∷ 25 ∷ 203 ∷ 130 ∷ 29 ∷ [];
}

abbrev sample_writes : List Write
sample_writes = commit_advance (sent_head sample_store 2) (sent_line sample_store 2)

sample-burns :
    burn party_a word no_file sample_secret sample_pair ≡ released sample_envelope sample_writes
unfolding burn require_not_frozen check frozen_half direction_for half witness_preflight
    burn_payload burn_checks burn_staged burn_commit ◌>>=◌ before attempt pair_id_of valid_pair_id
    read_auth_record read_encryption hex_to_bytes is_hex is_hex_digit hex_pairs hex_value wc_tag
    wc_hash canonical_bytes u64le set_bytes polyval bytes_to_field read_le field_to_bytes write_le
    polyval_blocks dot gf_mul mul_rounds times_x commit_advance witness_advance
sample-burns = refl

sample-IsLoaded : IsLoaded sample_store
unfolding is_valid_head has_fixed_domains is_policy is_rollback all_hex is_hex32 is_hex_digit
sample-IsLoaded = record {
  sequence_eq = refl;
  offset_eq = refl;
  head_valid = refl;
  failures_le = omega arith;
}

sample-loads : load_store sample_dir ≡ inr sample_store
unfolding load_store load_head load_files reconcile_journal reconcile effective_state secret_length
    read_journal read_lines take_record is_valid_head has_fixed_domains is_policy is_rollback
    all_hex is_hex32 is_hex_digit
sample-loads = refl

sample-IsReady : IsReady sample_store sample_store sample_pair no_file
unfolding require_not_frozen check frozen_half witness_preflight witness_advance
sample-IsReady = record {
  same_pair = refl;
  same_capacity = refl;
  same_records = refl;
  same_policy = refl;
  sequence_not_retired = omega arith;
  sequence_in_window = omega arith;
  offset_not_retired = omega arith;
  attempts_left = omega arith;
  not_frozen = refl;
  witness_passes = refl;
  witness_advances = λ c. refl;
}

open_envelope-burn_example :
    open_envelope party_b (inr sample_envelope) no_file sample_secret sample_pair
    ≡ released word (
        journal_line (attempt_line 0)
        ∷ commit_advance
            (opened_head sample_store sample_envelope)
            (opened_line sample_store sample_envelope))
unfolding half direction_for
open_envelope-burn_example =
    open_envelope-burn party_a party_b word no_file no_file sample_secret sample_pair sample_pair
      sample_envelope sample_writes refl sample-burns refl (omega arith) sample-IsReady

sample-History : History sample_dir (sample_envelope ∷ []) (run sample_dir sample_writes)
unfolding half direction_for
sample-History =
    sent [] sample_dir sample_pair party_a word no_file sample_secret sample_envelope sample_writes
      started sample-loads sample-burns

load_store-burn_example :
    (m : LoadedStore) × (load_store (run sample_dir sample_writes) ≡ inr m)
    × IsForward sample_head m.head
    × (m.head.authentication.next_sequence ≡ 1)
    × (m.head.encryption.next_offset ≡ 2)
    × (0 ≡ sample_envelope.sequence)
    × (0 ≡ sample_envelope.start_offset)
    × (m.effective.failure_count ≤ 0)
unfolding half direction_for
load_store-burn_example =
    load_store-burn sample_dir sample_pair party_a word no_file sample_secret sample_envelope
      sample_writes sample-loads sample-burns

History-no_reuse_example :
    (m : LoadedStore) × (load_store (run sample_dir sample_writes) ≡ inr m)
    × IsForward sample_head m.head
    × (m.effective.failure_count ≤ 1)
    × All (IsBelow m.head) (sample_envelope ∷ [])
    × IsFresh (sample_envelope ∷ [])
unfolding verbs_run sample-History half direction_for
History-no_reuse_example =
    History-no_reuse sample_dir sample_store (sample_envelope ∷ []) (run sample_dir sample_writes)
      sample-loads sample-History (omega arith)

burn-IsSafe_example :
    IsSafe 0 0 sample_head (writes_of (burn party_a word no_file sample_secret sample_pair))
unfolding half direction_for
burn-IsSafe_example =
    burn-IsSafe 0 party_a word no_file sample_secret sample_pair sample-IsLoaded (omega arith)

open_envelope-IsSafe_example :
    IsSafe 1 0 sample_head
      (writes_of (open_envelope party_b (inr sample_envelope) no_file sample_secret sample_pair))
unfolding half direction_for
open_envelope-IsSafe_example =
    open_envelope-IsSafe party_b (inr sample_envelope) no_file sample_secret sample_pair
      sample-IsLoaded (omega arith)

retire-IsSafe_example :
    IsSafe 0 0 sample_head (writes_of (retire a_to_b 1 (some 10) [] no_file sample_pair))
unfolding half
retire-IsSafe_example =
    retire-IsSafe 0 a_to_b 1 (some 10) [] no_file sample_pair sample-IsLoaded (omega arith)

retire_refused_example : ◌≡◌ {A = List Write} [] []
unfolding retire half witness_preflight check ◌>>=◌ before
retire_refused_example =
    retire_refused a_to_b 2 none [] no_file sample_pair sequence_malformed [] refl

burn_refused_example : ◌≡◌ {A = List Write} [] []
unfolding burn require_not_frozen check frozen_half direction_for half witness_preflight
    burn_payload burn_checks ◌>>=◌ before
burn_refused_example =
    burn_refused party_a (zeros 25) no_file sample_secret sample_pair encryption_exhausted [] refl

sample-opens :
    open_envelope party_b (inr sample_envelope) no_file sample_secret sample_pair
    ≡ released word (
        journal_line (attempt_line 0)
        ∷ commit_advance
            (opened_head sample_store sample_envelope)
            (opened_line sample_store sample_envelope))
unfolding half direction_for
sample-opens =
    open_envelope-burn party_a party_b word no_file no_file sample_secret sample_pair sample_pair
      sample_envelope sample_writes refl sample-burns refl (omega arith) sample-IsReady

open_envelope_inv_example : IsAccepted sample_secret sample_store a_to_b sample_envelope
unfolding half direction_for
open_envelope_inv_example =
    open_envelope_inv party_b sample_envelope no_file sample_secret sample_pair word
      (journal_line (attempt_line 0)
        ∷ commit_advance (opened_head sample_store sample_envelope)
            (opened_line sample_store sample_envelope))
      sample-opens

History-attempts_example :
    (m : LoadedStore) × (load_store (run sample_dir sample_writes) ≡ inr m)
    × (m.head.authentication.verify_attempt_limit ≡ 8)
    × AtMost 8 m.effective.attempts
unfolding verbs_run sample-History half direction_for
History-attempts_example =
    History-attempts sample_dir sample_store (sample_envelope ∷ []) (run sample_dir sample_writes)
      sample-loads (λ n. omega arith) sample-History (omega arith)

open_text-burn_example :
    (json : List ℕ) × (compact : List ℕ) × (encode_envelope2 sample_envelope ≡ some json)
    × (encode_compact_envelope2 sample_envelope ≡ some compact)
    × (open_text party_b json no_file sample_secret sample_pair
        ≡ opened party_b sample_pair sample_envelope word)
    × (open_text party_b compact no_file sample_secret sample_pair
        ≡ opened party_b sample_pair sample_envelope word)
unfolding half direction_for
open_text-burn_example =
    open_text-burn party_a party_b word no_file no_file sample_secret sample_pair sample_pair
      sample_envelope sample_writes refl sample-burns (every_byte-IsBytes word refl)
      (every_byte-IsBytes sample_secret refl) refl sample-IsReady
