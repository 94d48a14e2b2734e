-- ===== src/Store/Appended.antt =====
-- What a load needs of the files, and what one more journal line does to the aggregates.
use true_pad.Store.Head.{HeadV2}
use true_pad.Store.Valid.{is_valid_head}
use true_pad.Store.Journal.{
  Line, JournalAggregates, JournalRecord, init_line, send_line, attempt_line, auth_fail_line,
  open_line, retire_line, clear_freeze_line, Refusal, read_journal, read_lines, take_record,
  raise_marks, no_aggregates,
}
use true_pad.Store.Load.{
  Dir, HeadFile, absent, invalid, spelled, LoadedStore, secret_length, effective_state, reconcile,
  reconcile_journal, load_files, load_head, load_store,
}
use true_pad.Base.{
  ◌≤◌, ◌≡◌, ◌⊎◌, inl, inr, refl, ap, subst, true, List, [], ◌∷◌, ◌++◌, Option, none, some, arith,
  Bytes, length, max,
}

-- A directory that loads, with its files.
pub record Opens (d : Dir) (head : HeadV2) (j : JournalAggregates) : Type 0 where
  pub secret : Bytes
  pub lines : List Line
  pub head_there : d.head ≡ spelled head
  pub head_valid : is_valid_head head ≡ true
  pub secret_there : d.secret ≡ some secret
  pub secret_whole : length secret ≡ secret_length head
  pub journal_there : d.journal ≡ some lines
  pub journal_reads : read_journal lines ≡ inr j
  pub sequence_mark : j.max_next_sequence ≤ head.authentication.next_sequence
  pub offset_mark : j.max_next_offset ≤ head.encryption.next_offset

abbrev pub loaded_of : HeadV2 → JournalAggregates → LoadedStore
loaded_of head j = record { head = head; effective = effective_state head j }

reconcile_inv :
    (head : HeadV2) (j : JournalAggregates) (l : LoadedStore)
    → reconcile head j ≡ inr l
    → (j.max_next_sequence ≤ head.authentication.next_sequence)
      × (j.max_next_offset ≤ head.encryption.next_offset)
      × (loaded_of head j ≡ l)
unfolding reconcile
reconcile_inv head j l h = ground arith

reconcile_journal_inv :
    (head : HeadV2) (r : Refusal ⊎ JournalAggregates) (l : LoadedStore)
    → reconcile_journal head r ≡ inr l
    → (j : JournalAggregates) × (r ≡ inr j) × (reconcile head j ≡ inr l)
unfolding reconcile_journal
reconcile_journal_inv head (inl r) l h = ground arith
reconcile_journal_inv head (inr j) l h = (j, refl, h)

-- The opened files of a successful load.
files_open :
    (d : Dir) (head : HeadV2) (secret : Option Bytes) (journal : Option (List Line))
    (l : LoadedStore)
    → d.head ≡ spelled head
    → d.secret ≡ secret
    → d.journal ≡ journal
    → is_valid_head head ≡ true
    → load_files head secret journal ≡ inr l
    → (j : JournalAggregates) × Opens d head j × (loaded_of head j ≡ l)
unfolding load_files
files_open d head none journal l a b c v h = ground arith
files_open d head (some s) none l a b c v h = ground arith
files_open d head (some s) (some lines) l a b c v h =
    let whole : length s ≡ secret_length head = ground arith in
    let read : reconcile_journal head (read_journal lines) ≡ inr l = ground arith in
    let (j, e, m) = reconcile_journal_inv head (read_journal lines) l read in
    let (p, q, r) = reconcile_inv head j l m in
    (
      j,
      record {
        secret = s;
        lines = lines;
        head_there = a;
        head_valid = v;
        secret_there = b;
        secret_whole = whole;
        journal_there = c;
        journal_reads = e;
        sequence_mark = p;
        offset_mark = q;
      },
      r,
    )

head_open :
    (d : Dir) (file : HeadFile) (l : LoadedStore)
    → d.head ≡ file
    → load_head file d ≡ inr l
    → (head : HeadV2) × (j : JournalAggregates) × Opens d head j × (loaded_of head j ≡ l)
unfolding load_head
head_open d absent l e h = ground arith
head_open d invalid l e h = ground arith
head_open d (spelled head) l e h =
    let v : is_valid_head head ≡ true = ground arith in
    let loads : load_files head d.secret d.journal ≡ inr l = ground arith in
    let (j, o, m) = files_open d head d.secret d.journal l e refl refl v loads in (head, j, o, m)

pub load_store_inv :
    (d : Dir) (l : LoadedStore)
    → load_store d ≡ inr l
    → (j : JournalAggregates) × Opens d l.head j × (loaded_of l.head j ≡ l)
unfolding load_store
load_store_inv d l h =
    let (head, j, o, e) = head_open d d.head l refl h in
    let same_head : head ≡ l.head = ap (λ x. x.head) e in
    (j, subst (λ x. Opens d x j) same_head o, subst (λ x. loaded_of x j ≡ l) same_head e)

pub load_store-Opens :
    (d : Dir) (head : HeadV2) (j : JournalAggregates)
    → Opens d head j
    → load_store d ≡ inr (loaded_of head j)
unfolding load_store load_head load_files reconcile_journal reconcile
load_store-Opens d head j o =
    let p = o.sequence_mark in
    let q = o.offset_mark in
    rw (o.head_there, o.head_valid, o.secret_there, o.journal_there, o.journal_reads)
      (ground (arith, o.secret_whole))

pub read_lines-append :
    (a j : JournalAggregates) (lines : List Line) (r : JournalRecord)
    → read_lines a lines ≡ inr j
    → read_lines a (lines ++ some r ∷ []) ≡ inr (take_record j r)
unfolding read_lines
read_lines-append a j [] r h = ground arith
read_lines-append a j (none ∷ lines) r h = ground arith
read_lines-append a j (some s ∷ lines) r h = read_lines-append (take_record a s) j lines r h

-- The marks of a record alone, on top of those of the journal before it.
pub take_record-marks :
    (j : JournalAggregates) (r : JournalRecord)
    → ((take_record j r).max_next_sequence
        ≡ max j.max_next_sequence (take_record no_aggregates r).max_next_sequence)
      × ((take_record j r).max_next_offset
          ≡ max j.max_next_offset (take_record no_aggregates r).max_next_offset)
      × (j.attempts_reserved ≤ (take_record j r).attempts_reserved)
unfolding take_record raise_marks
take_record-marks j (init_line _ _ _ _) = (omega arith, omega arith, omega arith)
take_record-marks j (send_line _ _ _ _ _) = (omega arith, omega arith, omega arith)
take_record-marks j (attempt_line _) = (omega arith, omega arith, omega arith)
take_record-marks j (auth_fail_line _ _) = (omega arith, omega arith, omega arith)
take_record-marks j (open_line _ _ _ _ _ _) = (omega arith, omega arith, omega arith)
take_record-marks j (retire_line _ _ _) = (omega arith, omega arith, omega arith)
take_record-marks j (clear_freeze_line _) = (omega arith, omega arith, omega arith)
