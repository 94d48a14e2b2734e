-- ===== src/Store/Tests.antt =====
-- The store's theorems on a small store.
use true_pad.Direction.{a_to_b}
use true_pad.Store.Samples.{sample_head, sample_dir, sample_store}
use true_pad.Store.Head.{HeadV2}
use true_pad.Store.Journal.{
  JournalRecord, send_line, regressed_below_mark, take_record, raise_marks, read_journal,
  read_lines,
}
use true_pad.Store.Valid.{is_valid_head, has_fixed_domains, is_policy, is_rollback}
use true_pad.Envelope.{is_hex32, all_hex}
use true_pad.Codec.Hex.{is_hex_digit}
use true_pad.Store.Load.{
  LoadedStore, load_store, load_head, load_files, reconcile_journal, reconcile, effective_state,
  secret_length,
}
use true_pad.Store.Write.{head_file, is_safe_record, write, run, commit_advance}
use true_pad.Store.Safe.{IsForward, failures_after, IsSafe, load_store-prefix}
use true_pad.Store.Crash.{IsAdvance, commit_advance-crash, load_store-restored_head}
use true_pad.Base.{ℕ, ◌≤◌, ◌<◌, ◌≡◌, ◌⊎◌, inl, inr, refl, arith, take}

abbrev sample_new : HeadV2
sample_new = record {
  pair_id = sample_head.pair_id;
  direction = a_to_b;
  encryption = record { capacity = 24; next_offset = 5 };
  authentication = record {
    capacity_records = 2;
    next_sequence = 1;
    verify_attempt_limit = 8;
    max_ciphertext = 1048576;
    max_auth_lookahead = 64;
  };
  record_policy = sample_head.record_policy;
  rollback = sample_head.rollback;
  verification = sample_head.verification;
}

abbrev sample_line : JournalRecord
sample_line = send_line 0 0 5 5 1

sample-loads : load_store sample_dir ≡ inr sample_store
unfolding load_store load_head load_files reconcile_journal reconcile effective_state secret_length
    read_journal read_lines take_record is_valid_head has_fixed_domains is_policy is_rollback
    all_hex is_hex32 is_hex_digit
sample-loads = refl

sample-IsAdvance : IsAdvance sample_head sample_new sample_line
unfolding take_record raise_marks is_safe_record is_valid_head has_fixed_domains is_policy
    is_rollback all_hex is_hex32 is_hex_digit
sample-IsAdvance = record {
  same_capacity = refl;
  same_records = refl;
  new_valid = refl;
  line_safe = refl;
  sequence_up = omega arith;
  offset_up = omega arith;
  line_sequence = omega arith;
  line_offset = omega arith;
}

commit_advance-crash_example :
    (after : LoadedStore) × (load_store
        (run sample_dir (take 1 (commit_advance sample_new sample_line)))
      ≡ inr after)
    × (((◌≡◌ {A = ℕ} 1 0) × (after ≡ sample_store)) ⊎ ((◌<◌ 0 1) × (after.head ≡ sample_new)))
    × (0 ≤ after.effective.attempts_reserved)
commit_advance-crash_example =
    commit_advance-crash sample_dir sample_store sample_new sample_line 1 sample-loads
      sample-IsAdvance

load_store-restored_head_example :
    load_store
      (write (run sample_dir (commit_advance sample_new sample_line)) (head_file sample_head))
    ≡ inl regressed_below_mark
unfolding take_record raise_marks is_safe_record is_valid_head has_fixed_domains is_policy
    is_rollback all_hex is_hex32 is_hex_digit secret_length
load_store-restored_head_example =
    load_store-restored_head sample_dir sample_store sample_head sample_new sample_line sample-loads
      sample-IsAdvance refl refl refl refl (inl (omega arith))

sample-IsSafe : IsSafe 0 0 sample_head (commit_advance sample_new sample_line)
unfolding IsSafe commit_advance take_record raise_marks failures_after is_safe_record is_valid_head
    has_fixed_domains is_policy is_rollback all_hex is_hex32 is_hex_digit
sample-IsSafe = (
  record {
    same_capacity = refl;
    same_records = refl;
    sequence_up = omega arith;
    offset_up = omega arith;
  },
  refl,
  omega arith,
  (
    record { line_safe = refl; sequence_covered = omega arith; offset_covered = omega arith },
    omega arith,
    tt,
  ),
)

load_store-prefix_example :
    (m : LoadedStore) × (load_store
        (run sample_dir (take 1 (commit_advance sample_new sample_line)))
      ≡ inr m)
    × IsForward sample_head m.head
    × (m.effective.failure_count ≤ 0)
load_store-prefix_example =
    load_store-prefix 0 sample_dir sample_store 1 (commit_advance sample_new sample_line)
      sample-loads (omega arith) sample-IsSafe
