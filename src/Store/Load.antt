-- ===== src/Store/Load.antt =====
-- Loading a direction store, `loadStore2` of src/cli/v2/store2.ts, and reading its secret body.
use true_pad.Partition.{AuthRecord, slice_at, key_bytes}
use true_pad.Tag.{auth_record_bytes}
use true_pad.Store.Head.{HeadV2}
use true_pad.Store.Valid.{is_valid_head}
use true_pad.Store.Journal.{
  Line, JournalAggregates, Refusal, no_store, v1_store, corrupt_head, corrupt_secret_body,
  corrupt_store, regressed_below_mark, read_journal,
}
use true_pad.Base.{
  ℕ, ◌+◌, ◌-◌, ◌*◌, ◌⊎◌, inl, inr, true, false, ◌||◌, List, Bool, Option, none, some, Bytes, length,
  ◌==◌, ltb, leb, if◌then◌else◌, max, max_safe,
}

-- The file `head.json`: not there, refused by the parser, or a header that it spells, whose domains
-- the load tests.
pub data HeadFile : Type 0 where
  absent invalid : HeadFile
  spelled : (head : HeadV2) → HeadFile

-- The files of one direction's directory.
pub record Dir : Type 0 where
  pub head : HeadFile
  pub secret : Option Bytes
  pub journal : Option (List Line)
  pub v1_pad : Bool

pub record EffectiveState : Type 0 where
  pub next_offset : ℕ
  pub next_sequence : ℕ
  pub attempts : ℕ → ℕ
  pub attempts_reserved : ℕ
  pub failure_count : ℕ
  pub cleared_at_failure_count : ℕ

pub record LoadedStore : Type 0 where
  pub head : HeadV2
  pub effective : EffectiveState

unfoldable pub secret_length : HeadV2 → ℕ
secret_length head =
    head.encryption.capacity + auth_record_bytes * head.authentication.capacity_records

-- The caches of attempts and failures are the maxima of both files; the counters are the header's.
unfoldable pub effective_state : HeadV2 → JournalAggregates → EffectiveState
effective_state head journal = record {
  next_offset = head.encryption.next_offset;
  next_sequence = head.authentication.next_sequence;
  attempts = λ sequence.
      max (head.verification.per_sequence_attempts sequence) (journal.attempt_counts sequence);
  attempts_reserved = journal.attempts_reserved;
  failure_count = max head.verification.failure_count journal.failure_count;
  cleared_at_failure_count = max head.verification.cleared_at_failure_count journal.last_cleared_at;
}

-- The header against the journal's marks.
unfoldable pub reconcile : HeadV2 → JournalAggregates → Refusal ⊎ LoadedStore
unfolding effective_state
reconcile head journal =
    if ltb head.authentication.next_sequence journal.max_next_sequence
    then inl regressed_below_mark
    else if ltb head.encryption.next_offset journal.max_next_offset
    then inl regressed_below_mark
    else inr (record { head = head; effective = effective_state head journal })

unfoldable pub reconcile_journal : HeadV2 → Refusal ⊎ JournalAggregates → Refusal ⊎ LoadedStore
reconcile_journal head (inl refusal) = inl refusal
reconcile_journal head (inr journal) = reconcile head journal

unfoldable pub load_files : HeadV2 → Option Bytes → Option (List Line) → Refusal ⊎ LoadedStore
load_files head none journal = inl corrupt_store
load_files head (some secret) none = inl corrupt_store
load_files head (some secret) (some lines) =
    if length secret == secret_length head
    then reconcile_journal head (read_journal lines)
    else inl corrupt_secret_body

-- Without a header, what else the directory holds says what happened.
unfoldable pub no_head : Bool → Option Bytes → Option (List Line) → Refusal
no_head true secret journal = v1_store
no_head false none none = no_store
no_head false none (some lines) = corrupt_store
no_head false (some secret) journal = corrupt_store

unfoldable pub load_head : HeadFile → Dir → Refusal ⊎ LoadedStore
load_head absent dir = inl (no_head dir.v1_pad dir.secret dir.journal)
load_head invalid dir = inl corrupt_head
load_head (spelled head) dir =
    if is_valid_head head then load_files head dir.secret dir.journal else inl corrupt_head

unfoldable pub load_store : Dir → Refusal ⊎ LoadedStore
load_store dir = load_head dir.head dir

-- `length` bytes of the encryption slice from `offset`; an exception is `none`.
unfoldable pub read_encryption : Bytes → HeadV2 → ℕ → ℕ → Option Bytes
read_encryption secret head offset count =
    if ltb max_safe offset || ltb max_safe count || ltb head.encryption.capacity (offset + count)
    then none
    else if ltb (length secret) (offset + count)
    then none
    else some (slice_at secret offset count)

unfoldable pub read_auth_record : Bytes → HeadV2 → ℕ → Option AuthRecord
read_auth_record secret head sequence =
    let base = head.encryption.capacity + auth_record_bytes * sequence in
    if ltb max_safe sequence || leb head.authentication.capacity_records sequence
    then none
    else if ltb (length secret) (base + auth_record_bytes)
    then none
    else some (record {
      key = slice_at secret base key_bytes;
      mask = slice_at secret (base + key_bytes) (auth_record_bytes - key_bytes);
    })
