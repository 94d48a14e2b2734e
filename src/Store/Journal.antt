-- ===== src/Store/Journal.antt =====
-- The journal of a direction store and its aggregates, `readJournal` of src/cli/v2/store2.ts.
use true_pad.Direction.{Direction}
use true_pad.Base.{
  ℕ, ◌+◌, ◌⊎◌, inl, inr, true, false, List, [], ◌∷◌, Bool, Option, none, some, ◌==◌, if◌then◌else◌,
  max,
}

pub data JournalRecord : Type 0 where
  init_line :
      (pair_id : List ℕ) (direction : Direction) (capacity capacity_records : ℕ) → JournalRecord
  send_line : (sequence start_offset consumed next_offset next_sequence : ℕ) → JournalRecord
  attempt_line : (sequence : ℕ) → JournalRecord
  auth_fail_line : (sequence failure_count : ℕ) → JournalRecord
  open_line : (sequence start_offset consumed skipped next_offset next_sequence : ℕ) → JournalRecord
  retire_line : (to_sequence to_offset : ℕ) (reason : List ℕ) → JournalRecord
  clear_freeze_line : (at_failure_count : ℕ) → JournalRecord

-- A line of the file; `none` is one that is malformed.
abbrev pub Line : Type 0
Line = Option JournalRecord

pub record JournalAggregates : Type 0 where
  pub max_next_offset : ℕ
  pub max_next_sequence : ℕ
  pub attempt_counts : ℕ → ℕ
  pub attempts_reserved : ℕ
  pub failure_count : ℕ
  pub last_cleared_at : ℕ

-- A malformed line is told apart by its place: the last one is taken for the mark of a crash.
pub data Refusal : Type 0 where
  no_store v1_store corrupt_head corrupt_secret_body corrupt_store : Refusal
  corrupt_journal : (is_last : Bool) → Refusal
  regressed_below_mark : Refusal

abbrev pub no_aggregates : JournalAggregates
no_aggregates = record {
  max_next_offset = 0;
  max_next_sequence = 0;
  attempt_counts = λ sequence. 0;
  attempts_reserved = 0;
  failure_count = 0;
  last_cleared_at = 0;
}

-- A map with one more at a key.
abbrev pub count_one : ℕ → (ℕ → ℕ) → ℕ → ℕ
count_one key counts k = if key == k then counts key + 1 else counts k

unfoldable pub raise_marks : ℕ → ℕ → JournalAggregates → JournalAggregates
raise_marks next_offset next_sequence a = record {
  max_next_offset = max a.max_next_offset next_offset;
  max_next_sequence = max a.max_next_sequence next_sequence;
  attempt_counts = a.attempt_counts;
  attempts_reserved = a.attempts_reserved;
  failure_count = a.failure_count;
  last_cleared_at = a.last_cleared_at;
}

-- The body of the loop of `readJournal` on a record that is well formed.
unfoldable pub take_record : JournalAggregates → JournalRecord → JournalAggregates
unfolding raise_marks
take_record a (init_line _ _ _ _) = a
take_record a (send_line _ _ _ next_offset next_sequence) = raise_marks next_offset next_sequence a
take_record a (open_line _ _ _ _ next_offset next_sequence) =
    raise_marks next_offset next_sequence a
take_record a (attempt_line sequence) = record {
  max_next_offset = a.max_next_offset;
  max_next_sequence = a.max_next_sequence;
  attempt_counts = count_one sequence a.attempt_counts;
  attempts_reserved = a.attempts_reserved + 1;
  failure_count = a.failure_count;
  last_cleared_at = a.last_cleared_at;
}
take_record a (auth_fail_line _ failure_count) = record {
  max_next_offset = a.max_next_offset;
  max_next_sequence = a.max_next_sequence;
  attempt_counts = a.attempt_counts;
  attempts_reserved = a.attempts_reserved;
  failure_count = max (a.failure_count + 1) failure_count;
  last_cleared_at = a.last_cleared_at;
}
take_record a (retire_line to_sequence to_offset _) = raise_marks to_offset to_sequence a
take_record a (clear_freeze_line at_failure_count) = record {
  max_next_offset = a.max_next_offset;
  max_next_sequence = a.max_next_sequence;
  attempt_counts = a.attempt_counts;
  attempts_reserved = a.attempts_reserved;
  failure_count = a.failure_count;
  last_cleared_at = at_failure_count;
}

abbrev pub is_empty : List Line → Bool
is_empty [] = true
is_empty (l ∷ ls) = false

unfoldable pub read_lines : JournalAggregates → List Line → Refusal ⊎ JournalAggregates
read_lines a [] = inr a
read_lines a (none ∷ lines) = inl (corrupt_journal (is_empty lines))
read_lines a (some r ∷ lines) = read_lines (take_record a r) lines

unfoldable pub read_journal : List Line → Refusal ⊎ JournalAggregates
read_journal lines = read_lines no_aggregates lines
