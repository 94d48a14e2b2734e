-- ===== src/Store/Crash.antt =====
-- What a crash between two writes or an old header leaves of a store.
use true_pad.Store.Head.{HeadV2}
use true_pad.Store.Journal.{
  JournalAggregates, JournalRecord, regressed_below_mark, read_journal, take_record, no_aggregates,
}
use true_pad.Store.Valid.{is_valid_head}
use true_pad.Store.Load.{
  Dir, LoadedStore, secret_length, effective_state, reconcile, reconcile_journal, load_files,
  load_head, load_store,
}
use true_pad.Store.Write.{
  Write, head_file, journal_line, is_safe_record, write, run, commit_advance,
}
use true_pad.Store.Appended.{
  Opens, loaded_of, load_store_inv, load_store-Opens, read_lines-append, take_record-marks,
}
use true_pad.Base.{
  ℕ, zero, suc, ◌≤◌, ◌<◌, ◌≡◌, ◌⊎◌, inl, inr, if◌then◌else◌, none, refl, sym, ap, ◌∙◌, true, [],
  ◌∷◌, ◌++◌, some, arith, length, take,
}

same_length :
    (old new : HeadV2)
    → old.encryption.capacity ≡ new.encryption.capacity
    → old.authentication.capacity_records ≡ new.authentication.capacity_records
    → secret_length old ≡ secret_length new
unfolding secret_length
same_length old new e f = rw (e, f) refl

pub write_head_Opens :
    (d : Dir) (old new : HeadV2) (j : JournalAggregates)
    → Opens d old j
    → old.encryption.capacity ≡ new.encryption.capacity
    → old.authentication.capacity_records ≡ new.authentication.capacity_records
    → is_valid_head new ≡ true
    → j.max_next_sequence ≤ new.authentication.next_sequence
    → j.max_next_offset ≤ new.encryption.next_offset
    → Opens (write d (head_file new)) new j
unfolding write
write_head_Opens d old new j o e f v p q = record {
  secret = o.secret;
  lines = o.lines;
  head_there = refl;
  head_valid = v;
  secret_there = o.secret_there;
  secret_whole = o.secret_whole ∙ same_length old new e f;
  journal_there = o.journal_there;
  journal_reads = o.journal_reads;
  sequence_mark = p;
  offset_mark = q;
}

pub write_line_Opens :
    (d : Dir) (head : HeadV2) (j : JournalAggregates) (line : JournalRecord)
    → Opens d head j
    → is_safe_record line ≡ true
    → (take_record no_aggregates line).max_next_sequence ≤ head.authentication.next_sequence
    → (take_record no_aggregates line).max_next_offset ≤ head.encryption.next_offset
    → Opens (write d (journal_line line)) head (take_record j line)
unfolding write read_journal
write_line_Opens d head j line o safe p q = record {
  secret = o.secret;
  lines = o.lines ++ some line ∷ [];
  head_there = o.head_there;
  head_valid = o.head_valid;
  secret_there = o.secret_there;
  secret_whole = o.secret_whole;
  journal_there =
      rw (o.journal_there) (ap (λ b. some (o.lines ++ (if b then some line else none) ∷ [])) safe);
  journal_reads = read_lines-append no_aggregates j o.lines line o.journal_reads;
  sequence_mark = let b = o.sequence_mark in omega (arith, (take_record-marks j line).0);
  offset_mark = let b = o.offset_mark in omega (arith, (take_record-marks j line).1);
}

-- The conditions under which the verbs commit a header and its line.
pub record IsAdvance (old new : HeadV2) (line : JournalRecord) : Type 0 where
  pub same_capacity : old.encryption.capacity ≡ new.encryption.capacity
  pub same_records : old.authentication.capacity_records ≡ new.authentication.capacity_records
  pub new_valid : is_valid_head new ≡ true
  pub sequence_up : old.authentication.next_sequence ≤ new.authentication.next_sequence
  pub offset_up : old.encryption.next_offset ≤ new.encryption.next_offset
  pub line_safe : is_safe_record line ≡ true
  pub line_sequence :
      (take_record no_aggregates line).max_next_sequence ≤ new.authentication.next_sequence
  pub line_offset : (take_record no_aggregates line).max_next_offset ≤ new.encryption.next_offset

pub committed_Opens :
    (d : Dir) (old new : HeadV2) (j : JournalAggregates) (line : JournalRecord)
    → Opens d old j
    → IsAdvance old new line
    → Opens (run d (commit_advance new line)) new (take_record j line)
unfolding run commit_advance
committed_Opens d old new j line o a =
    let p = o.sequence_mark in
    let q = o.offset_mark in
    let p' = a.sequence_up in
    let q' = a.offset_up in
    write_line_Opens (write d (head_file new)) new j line
      (write_head_Opens d old new j o a.same_capacity a.same_records a.new_valid (omega arith)
        (omega arith))
      a.line_safe a.line_sequence a.line_offset

total_of :
    (l : LoadedStore) (j : JournalAggregates)
    → loaded_of l.head j ≡ l
    → j.attempts_reserved ≡ l.effective.attempts_reserved
unfolding effective_state
total_of l j e = ap (λ x. x.effective.attempts_reserved) e

take_nil : (n : ℕ) → take {A = Write} n [] ≡ []
take_nil zero = refl
take_nil (suc n) = refl

-- A commit may be cut off between any two of its writes, where its header passes the validation, keeps
-- both budgets and moves no counter back, and its line has safe integers and no marks above that
-- header: a store that loaded then loads, with the old state before the first write and the new header
-- after it, and the total of reserved attempts has not gone back.
pub commit_advance-crash :
    (d : Dir) (l : LoadedStore) (new : HeadV2) (line : JournalRecord) (n : ℕ)
    → load_store d ≡ inr l
    → IsAdvance l.head new line
    → (after : LoadedStore) × (load_store (run d (take n (commit_advance new line))) ≡ inr after)
      × (((n ≡ 0) × (after ≡ l)) ⊎ ((0 < n) × (after.head ≡ new)))
      × (l.effective.attempts_reserved ≤ after.effective.attempts_reserved)
unfolding run commit_advance effective_state
commit_advance-crash d l new line zero h a = (l, h, inl (refl, refl), omega arith)
commit_advance-crash d l new line (suc zero) h a =
    let (j, o, e) = load_store_inv d l h in
    let p = o.sequence_mark in
    let q = o.offset_mark in
    let p' = a.sequence_up in
    let q' = a.offset_up in
    let w =
      write_head_Opens d l.head new j o a.same_capacity a.same_records a.new_valid (omega arith)
        (omega arith) in
    (
      loaded_of new j,
      load_store-Opens (write d (head_file new)) new j w,
      inr (omega arith, refl),
      omega (arith, total_of l j e),
    )
commit_advance-crash d l new line (suc (suc m)) h a =
    let (j, o, e) = load_store_inv d l h in
    let (_, _, total) = take_record-marks j line in
    (
      loaded_of new (take_record j line),
      ap (λ rest. load_store (run (write (write d (head_file new)) (journal_line line)) rest))
            (take_nil m)
          ∙ load_store-Opens (run d (commit_advance new line)) new (take_record j line)
              (committed_Opens d l.head new j line o a),
      inr (omega arith, refl),
      omega (arith, total_of l j e),
    )

-- Once a commit that keeps the budgets, moves no counter back and leaves a header that passes the
-- validation is complete, and its journal line has safe integers and carries exactly the counters of
-- that header, putting
-- back a header with a lower sequence or offset counter is refused as regressed, where that one passes
-- the validation too and asks for a secret body of the same length.
pub load_store-restored_head :
    (d : Dir) (l : LoadedStore) (old new : HeadV2) (line : JournalRecord)
    → load_store d ≡ inr l
    → IsAdvance l.head new line
    → (take_record no_aggregates line).max_next_sequence ≡ new.authentication.next_sequence
    → (take_record no_aggregates line).max_next_offset ≡ new.encryption.next_offset
    → is_valid_head old ≡ true
    → secret_length old ≡ secret_length new
    → (old.authentication.next_sequence < new.authentication.next_sequence)
      ⊎ (old.encryption.next_offset < new.encryption.next_offset)
    → load_store (write (run d (commit_advance new line)) (head_file old))
      ≡ inl regressed_below_mark
unfolding load_store load_head load_files reconcile_journal reconcile write
load_store-restored_head d l old new line h a es eo v budgets lower =
    let (j, o, e) = load_store_inv d l h in
    let c = committed_Opens d l.head new j line o a in
    let (ms, mo, _) = take_record-marks j line in
    let sizes : length c.secret ≡ secret_length old = c.secret_whole ∙ sym budgets in
    rw (v, c.secret_there, c.journal_there, c.journal_reads) (ground arith)
