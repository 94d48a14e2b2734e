-- ===== src/Store/Write.antt =====
-- The durable transitions of a direction store, src/cli/v2/store2.ts: each is the sequence of its
-- writes, every one atomic and on disk before the next, so that a crash between two of them leaves a
-- prefix.
use true_pad.Store.Head.{HeadV2}
use true_pad.Store.Journal.{
  JournalRecord, init_line, send_line, attempt_line, auth_fail_line, open_line, retire_line,
  clear_freeze_line, count_one, Line,
}
use true_pad.Store.Load.{Dir, absent, spelled, secret_length}
use true_pad.Base.{
  ℕ, ◌+◌, List, [], ◌∷◌, ◌++◌, Option, none, some, Bytes, length, ◌==◌, ltb, leb, ◌&&◌, true, Bool,
  if◌then◌else◌, max_safe,
}

pub data Write : Type 0 where
  secret_body : (bytes : Bytes) → Write
  head_file : (head : HeadV2) → Write
  journal_line : (line : JournalRecord) → Write

-- Opening a journal that is not there for append creates it.
abbrev pub append_to : Option (List Line) → Line → List Line
append_to none line = line ∷ []
append_to (some lines) line = lines ++ line ∷ []

abbrev are_safe : List ℕ → Bool
are_safe [] = true
are_safe (n ∷ ns) = leb n max_safe && are_safe ns

-- The numbers of a record are safe integers.
unfoldable pub is_safe_record : JournalRecord → Bool
is_safe_record (init_line _ _ capacity records) = are_safe (capacity ∷ records ∷ [])
is_safe_record (send_line sequence start consumed next_offset next_sequence) =
    are_safe (sequence ∷ start ∷ consumed ∷ next_offset ∷ next_sequence ∷ [])
is_safe_record (attempt_line sequence) = are_safe (sequence ∷ [])
is_safe_record (auth_fail_line sequence failures) = are_safe (sequence ∷ failures ∷ [])
is_safe_record (open_line sequence start consumed skipped next_offset next_sequence) =
    are_safe (sequence ∷ start ∷ consumed ∷ skipped ∷ next_offset ∷ next_sequence ∷ [])
is_safe_record (retire_line sequence offset _) = are_safe (sequence ∷ offset ∷ [])
is_safe_record (clear_freeze_line failures) = are_safe (failures ∷ [])

-- What `parseJournalRecord` makes of the line that is printed for a record.
abbrev pub printed : JournalRecord → Line
printed line = if is_safe_record line then some line else none

unfoldable pub write : Dir → Write → Dir
write d (secret_body bytes) = record {
  head = d.head;
  secret = some bytes;
  journal = d.journal;
  v1_pad = d.v1_pad;
}
write d (head_file head) = record {
  head = spelled head;
  secret = d.secret;
  journal = d.journal;
  v1_pad = d.v1_pad;
}
write d (journal_line line) = record {
  head = d.head;
  secret = d.secret;
  journal = some (append_to d.journal (printed line));
  v1_pad = d.v1_pad;
}

unfoldable pub run : Dir → List Write → Dir
run d [] = d
run d (w ∷ ws) = run (write d w) ws

-- `initStore2`: `none` where it throws.
unfoldable pub init_store : Dir → HeadV2 → Bytes → Option (List Write)
init_store d head secret = elim d.head [
  | absent ↦
      (if length secret == secret_length head
        then some (
            secret_body secret
            ∷ head_file head
            ∷ journal_line (
                init_line head.pair_id head.direction head.encryption.capacity
                  head.authentication.capacity_records)
            ∷ [])
        else none)
  | _ ↦ none
]

-- `reserveAttempt`: the journal line and nothing else.
unfoldable pub reserve_attempt : ℕ → Option (List Write)
reserve_attempt sequence =
    if ltb max_safe sequence then none else some (journal_line (attempt_line sequence) ∷ [])

-- The header that `persistAuthFail` writes.
unfoldable pub failed_head : HeadV2 → ℕ → HeadV2
failed_head head sequence = record {
  pair_id = head.pair_id;
  direction = head.direction;
  encryption = head.encryption;
  authentication = head.authentication;
  record_policy = head.record_policy;
  rollback = head.rollback;
  verification = record {
    threshold = head.verification.threshold;
    failure_count = head.verification.failure_count + 1;
    cleared_at_failure_count = head.verification.cleared_at_failure_count;
    per_sequence_attempts = count_one sequence head.verification.per_sequence_attempts;
  };
}

-- `persistAuthFail`: the journal first, then the header.
unfoldable pub persist_auth_fail : HeadV2 → ℕ → Option (List Write)
unfolding failed_head
persist_auth_fail head sequence =
    let new_head = failed_head head sequence in
    if ltb max_safe sequence
    then none
    else some (
        journal_line (auth_fail_line sequence new_head.verification.failure_count)
        ∷ head_file new_head
        ∷ [])

-- `commitAdvance`: the header first, then the journal.
unfoldable pub commit_advance : HeadV2 → JournalRecord → List Write
commit_advance new_head line = head_file new_head ∷ journal_line line ∷ []
