-- ===== src/Store/Valid.antt =====
-- The domains that `validateHead` of src/cli/v2/store2.ts demands, as a test of a header that is there:
-- `loadStore2` runs it on whatever header was written last. The domains of the values of
-- `perSequenceAttempts` are left out, as that map is a function here whose values the limit of attempts
-- bounds.
use true_pad.Tag.{max_ciphertext_bytes}
use true_pad.Envelope.{is_hex32}
use true_pad.Store.Head.{
  HeadV2, RecordSpec, variable, fixed, Rollback, no_witness, separate_state_file,
  platform_monotonic, remote_monotonic,
}
use true_pad.Store.Header.{is_record_size, is_absolute}
use true_pad.Base.{◌≤◌, ◌≡◌, true, ◌&&◌, Bool, arith, ◌==◌, leb, max_safe}

unfoldable pub is_policy : RecordSpec → Bool
is_policy variable = true
is_policy (fixed bytes) = is_record_size bytes

unfoldable pub is_rollback : Rollback → Bool
is_rollback (separate_state_file path) = is_absolute path
is_rollback no_witness = true
is_rollback platform_monotonic = true
is_rollback remote_monotonic = true

-- The domains of what stays as it was at the creation of the store.
unfoldable pub has_fixed_domains : HeadV2 → Bool
has_fixed_domains head =
    is_hex32 head.pair_id
    && leb head.encryption.capacity max_safe
    && leb head.authentication.capacity_records max_safe
    && leb head.authentication.verify_attempt_limit max_safe
    && leb head.authentication.max_auth_lookahead max_safe
    && head.authentication.max_ciphertext == max_ciphertext_bytes
    && is_policy head.record_policy
    && is_rollback head.rollback
    && leb head.verification.threshold max_safe

-- Those, and the domains of the counters.
unfoldable pub is_valid_head : HeadV2 → Bool
is_valid_head head =
    has_fixed_domains head
    && leb head.encryption.next_offset head.encryption.capacity
    && leb head.authentication.next_sequence head.authentication.capacity_records
    && leb head.verification.failure_count max_safe
    && leb head.verification.cleared_at_failure_count max_safe

-- The counters of a header that passes the test.
pub record HasCounters (head : HeadV2) : Type 0 where
  pub offset_fits : head.encryption.next_offset ≤ head.encryption.capacity
  pub sequence_fits : head.authentication.next_sequence ≤ head.authentication.capacity_records
  pub failures_fit : head.verification.failure_count ≤ max_safe
  pub cleared_fits : head.verification.cleared_at_failure_count ≤ max_safe

-- Its capacities are safe integers.
pub record HasCapacities (head : HeadV2) : Type 0 where
  pub bytes_fit : head.encryption.capacity ≤ max_safe
  pub records_fit : head.authentication.capacity_records ≤ max_safe

pub is_valid_head_inv :
    (head : HeadV2) → is_valid_head head ≡ true → (has_fixed_domains head ≡ true) × HasCounters head
unfolding is_valid_head
is_valid_head_inv head h = (
  ground arith,
  record {
    offset_fits = ground arith;
    sequence_fits = ground arith;
    failures_fit = ground arith;
    cleared_fits = ground arith;
  },
)

pub is_valid_head_lem :
    (head : HeadV2) → has_fixed_domains head ≡ true → HasCounters head → is_valid_head head ≡ true
unfolding is_valid_head
is_valid_head_lem head h c =
    let a = c.offset_fits in
    let b = c.sequence_fits in let d = c.failures_fit in let e = c.cleared_fits in ground arith

pub has_fixed_domains-HasCapacities :
    (head : HeadV2) → has_fixed_domains head ≡ true → HasCapacities head
unfolding has_fixed_domains
has_fixed_domains-HasCapacities head h = record {
  bytes_fit = ground arith;
  records_fit = ground arith;
}
