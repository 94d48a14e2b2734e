-- ===== src/Verbs/Operator.antt =====
-- The operator's verbs `retire` and `clearFreeze` of src/cli/v2/truepad2.ts.
use true_pad.Direction.{Direction}
use true_pad.Store.Head.{HeadV2}
use true_pad.Store.Journal.{retire_line, clear_freeze_line}
use true_pad.Store.Load.{LoadedStore}
use true_pad.Store.Write.{Write, commit_advance}
use true_pad.Verbs.Burn.{advanced_head}
use true_pad.Verbs.Outcome.{
  Outcome, released, check, durable, ◌>>=◌, sequence_malformed, sequence_retired,
  encryption_exhausted, offset_retired,
}
use true_pad.Verbs.Pair.{LoadedPair, half, frozen_half}
use true_pad.Verbs.Witness.{Witness, WitnessCounters, witness_preflight, witness_advance}
use true_pad.Base.{ℕ, ◌+◌, List, [], Option, none, some, ltb, leb, if◌then◌else◌}

-- The offset that `retire` moves to, with the flag `--through-offset` or without it.
unfoldable pub retire_offset : LoadedStore → Option ℕ → Outcome ℕ
retire_offset store none = released store.effective.next_offset []
retire_offset store (some through) =
    check (leb store.head.encryption.capacity through) encryption_exhausted >>= λ _.
    check (ltb (through + 1) store.effective.next_offset) offset_retired >>= λ _.
    released (through + 1) []

-- The counts that the pruning of `retire` leaves.
abbrev pub attempts_from : ℕ → (ℕ → ℕ) → ℕ → ℕ
attempts_from next_sequence counts k = if leb next_sequence k then counts k else 0

abbrev pub retired_head : LoadedStore → ℕ → ℕ → HeadV2
retired_head store next_offset next_sequence =
    advanced_head store.head next_offset next_sequence
      (attempts_from next_sequence store.head.verification.per_sequence_attempts)

abbrev pub retired_counters : LoadedStore → ℕ → ℕ → WitnessCounters
retired_counters store next_offset next_sequence = record {
  encryption_next_offset = next_offset;
  authentication_next_sequence = next_sequence;
  attempts_reserved = store.effective.attempts_reserved;
}

unfoldable pub retire_commit : Witness → LoadedStore → ℕ → List ℕ → ℕ → Outcome (ℕ × ℕ)
retire_commit w store next_sequence reason next_offset =
    durable (
      commit_advance (retired_head store next_offset next_sequence)
        (retire_line next_sequence next_offset reason))
    >>= λ _.
        witness_advance store.head.rollback w (retired_counters store next_offset next_sequence)
        >>= λ _. released (next_sequence, next_offset) []

unfoldable pub retire : Direction → ℕ → Option ℕ → List ℕ → Witness → LoadedPair → Outcome (ℕ × ℕ)
retire direction through_sequence through_offset reason w pair = do
  let store = half pair direction
  _ ← witness_preflight store.head.rollback w store.effective
  _ ← check (leb store.head.authentication.capacity_records through_sequence) sequence_malformed
  _ ← check (ltb through_sequence store.effective.next_sequence) sequence_retired
  next_offset ← retire_offset store through_offset
  retire_commit w store (through_sequence + 1) reason next_offset

-- The header with the freeze of a direction cleared at its reconciled failures.
unfoldable pub cleared_head : LoadedStore → HeadV2
cleared_head store = record {
  pair_id = store.head.pair_id;
  direction = store.head.direction;
  encryption = store.head.encryption;
  authentication = store.head.authentication;
  record_policy = store.head.record_policy;
  rollback = store.head.rollback;
  verification = record {
    threshold = store.head.verification.threshold;
    failure_count = store.effective.failure_count;
    cleared_at_failure_count = store.effective.failure_count;
    per_sequence_attempts = store.head.verification.per_sequence_attempts;
  };
}

-- `clearFreeze` on one direction: nothing where that direction is not frozen.
unfoldable pub clear_freeze_half : LoadedStore → List Write
unfolding cleared_head
clear_freeze_half store =
    if frozen_half store
    then commit_advance (cleared_head store) (clear_freeze_line store.effective.failure_count)
    else []
