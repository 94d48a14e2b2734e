-- ===== src/Store/Text.antt =====
-- The JSON of a store's journal, `parseJournalRecord` of src/cli/v2/store2.ts, and the line that
-- `appendLineDurably` prints for a record. The time stamp of a line is an argument of the printer.
use true_pad.Base.{
  ℕ, ◌≤◌, ◌≡◌, refl, List, Option, none, some, if◌then◌else◌, ◌>>=◌, codes, max_safe, same,
}
use Prim.Native.String.{String}
use true_pad.Direction.{Direction, a_to_b, b_to_a}
use true_pad.Json.Tree.{
  Json, count, string, object, Members, no_members, member, value_of, safe_count, safe_count-count,
}
use true_pad.Envelope.{direction_text}
use true_pad.Store.Journal.{
  JournalRecord, init_line, send_line, attempt_line, auth_fail_line, open_line, retire_line,
  clear_freeze_line,
}

abbrev pub string_of : Option Json → Option (List ℕ)
string_of (some (string units)) = some units
string_of _ = none

-- `raw.direction`, one of the two.
abbrev pub direction_of : Option Json → Option Direction
direction_of (some (string units)) =
    if same units (direction_text a_to_b)
    then some a_to_b
    else if same units (direction_text b_to_a)
    then some b_to_a
    else none
direction_of _ = none

-- `isSafeCount` of a member.
abbrev pub count_of : Members → List ℕ → Option ℕ
count_of ms key = safe_count (value_of key ms)

unfoldable pub parse_init : Members → Option JournalRecord
parse_init ms = do
  pair_id ← string_of (value_of (codes "pairId") ms)
  direction ← direction_of (value_of (codes "direction") ms)
  capacity ← count_of ms (codes "capacity")
  records ← count_of ms (codes "capacityRecords")
  some (init_line pair_id direction capacity records)

unfoldable pub parse_send : Members → Option JournalRecord
parse_send ms = do
  sequence ← count_of ms (codes "sequence")
  start_offset ← count_of ms (codes "startOffset")
  consumed ← count_of ms (codes "consumed")
  next_offset ← count_of ms (codes "nextOffset")
  next_sequence ← count_of ms (codes "nextSequence")
  some (send_line sequence start_offset consumed next_offset next_sequence)

unfoldable pub parse_attempt : Members → Option JournalRecord
parse_attempt ms = do sequence ← count_of ms (codes "sequence"); some (attempt_line sequence)

unfoldable pub parse_auth_fail : Members → Option JournalRecord
parse_auth_fail ms = do
  sequence ← count_of ms (codes "sequence")
  failure_count ← count_of ms (codes "failureCount")
  some (auth_fail_line sequence failure_count)

unfoldable pub parse_open : Members → Option JournalRecord
parse_open ms = do
  sequence ← count_of ms (codes "sequence")
  start_offset ← count_of ms (codes "startOffset")
  consumed ← count_of ms (codes "consumed")
  skipped ← count_of ms (codes "skipped")
  next_offset ← count_of ms (codes "nextOffset")
  next_sequence ← count_of ms (codes "nextSequence")
  some (open_line sequence start_offset consumed skipped next_offset next_sequence)

unfoldable pub parse_retire : Members → Option JournalRecord
parse_retire ms = do
  to_sequence ← count_of ms (codes "toSequence")
  to_offset ← count_of ms (codes "toOffset")
  reason ← string_of (value_of (codes "reason") ms)
  some (retire_line to_sequence to_offset reason)

unfoldable pub parse_clear_freeze : Members → Option JournalRecord
parse_clear_freeze ms = do n ← count_of ms (codes "atFailureCount"); some (clear_freeze_line n)

-- The `switch` over `raw.op`.
unfoldable pub parse_op : List ℕ → Members → Option JournalRecord
parse_op op ms =
    if same op (codes "init")
    then parse_init ms
    else if same op (codes "send")
    then parse_send ms
    else if same op (codes "attempt")
    then parse_attempt ms
    else if same op (codes "auth-fail")
    then parse_auth_fail ms
    else if same op (codes "open")
    then parse_open ms
    else if same op (codes "retire")
    then parse_retire ms
    else if same op (codes "clear-freeze")
    then parse_clear_freeze ms
    else none

unfoldable pub parse_journal_record : Json → Option JournalRecord
parse_journal_record (object ms) = do op ← string_of (value_of (codes "op") ms); parse_op op ms
parse_journal_record _ = none

abbrev pub member_count : String → ℕ → Members → Members
member_count key n rest = member (codes key) (count n) rest

-- The members that the transitions write after `op`.
unfoldable pub record_members : Members → JournalRecord → Members
record_members at (init_line pair_id direction capacity records) =
    member (codes "op") (string (codes "init")) (
      member (codes "pairId") (string pair_id) (
        member (codes "direction") (string (direction_text direction))
          (member_count "capacity" capacity (member_count "capacityRecords" records at))))
record_members at (send_line sequence start_offset consumed next_offset next_sequence) =
    member (codes "op") (string (codes "send")) (
      member_count "sequence" sequence (
        member_count "startOffset" start_offset (
          member_count "consumed" consumed (
            member_count "nextOffset" next_offset (member_count "nextSequence" next_sequence at)))))
record_members at (attempt_line sequence) =
    member (codes "op") (string (codes "attempt")) (member_count "sequence" sequence at)
record_members at (auth_fail_line sequence failure_count) =
    member (codes "op") (string (codes "auth-fail"))
      (member_count "sequence" sequence (member_count "failureCount" failure_count at))
record_members at (open_line sequence start_offset consumed skipped next_offset next_sequence) =
    member (codes "op") (string (codes "open")) (
      member_count "sequence" sequence (
        member_count "startOffset" start_offset (
          member_count "consumed" consumed (
            member_count "skipped" skipped (
              member_count "nextOffset" next_offset
                (member_count "nextSequence" next_sequence at))))))
record_members at (retire_line to_sequence to_offset reason) =
    member (codes "op") (string (codes "retire")) (
      member_count "toSequence" to_sequence
        (member_count "toOffset" to_offset (member (codes "reason") (string reason) at)))
record_members at (clear_freeze_line n) =
    member (codes "op") (string (codes "clear-freeze")) (member_count "atFailureCount" n at)

-- The object of a line, with its time stamp.
abbrev pub record_json : List ℕ → JournalRecord → Json
record_json at r = object (record_members (member (codes "at") (string at) no_members) r)

-- A record whose numbers are safe integers.
abbrev pub IsSafeRecord : JournalRecord → Type 0
IsSafeRecord (init_line _ _ c r) = (c ≤ max_safe) × (r ≤ max_safe)
IsSafeRecord (send_line s o c off nxt) =
    (s ≤ max_safe) × (o ≤ max_safe) × (c ≤ max_safe) × (off ≤ max_safe) × (nxt ≤ max_safe)
IsSafeRecord (attempt_line s) = s ≤ max_safe
IsSafeRecord (auth_fail_line s f) = (s ≤ max_safe) × (f ≤ max_safe)
IsSafeRecord (open_line s o c k off nxt) =
    (s ≤ max_safe)
    × (o ≤ max_safe)
    × (c ≤ max_safe)
    × (k ≤ max_safe)
    × (off ≤ max_safe)
    × (nxt ≤ max_safe)
IsSafeRecord (retire_line s o _) = (s ≤ max_safe) × (o ≤ max_safe)
IsSafeRecord (clear_freeze_line n) = n ≤ max_safe

direction_of-text : (d : Direction) → direction_of (some (string (direction_text d))) ≡ some d
direction_of-text a_to_b = refl
direction_of-text b_to_a = refl

-- A record whose numbers are safe integers is read back from the object that is written for it,
-- whatever its time stamp.
pub parse_journal_record-record_json :
    (at : List ℕ) (r : JournalRecord)
    → IsSafeRecord r
    → parse_journal_record (record_json at r) ≡ some r
unfolding parse_journal_record record_members parse_op value_of parse_init parse_send parse_attempt
    parse_auth_fail parse_open parse_retire parse_clear_freeze
parse_journal_record-record_json at (init_line p d c r) (hc, hr) =
    rw (direction_of-text d, safe_count-count c hc, safe_count-count r hr)
parse_journal_record-record_json at (send_line s o c off nxt) (a, b, e, f, g) = rw (
  safe_count-count s a,
  safe_count-count o b,
  safe_count-count c e,
  safe_count-count off f,
  safe_count-count nxt g,
)
parse_journal_record-record_json at (attempt_line s) a = rw (safe_count-count s a)
parse_journal_record-record_json at (auth_fail_line s n) (a, b) =
    rw (safe_count-count s a, safe_count-count n b)
parse_journal_record-record_json at (open_line s o c k off nxt) (a, b, e, m, f, g) = rw (
  safe_count-count s a,
  safe_count-count o b,
  safe_count-count c e,
  safe_count-count k m,
  safe_count-count off f,
  safe_count-count nxt g,
)
parse_journal_record-record_json at (retire_line s o t) (a, b) =
    rw (safe_count-count s a, safe_count-count o b)
parse_journal_record-record_json at (clear_freeze_line n) a = rw (safe_count-count n a)
