-- ===== src/Store/Safe.antt =====
-- Sequences of writes that may be cut off anywhere: what every prefix of them keeps.
use true_pad.Store.Head.{HeadV2}
use true_pad.Store.Journal.{
  JournalAggregates, JournalRecord, init_line, send_line, attempt_line, auth_fail_line, open_line,
  retire_line, clear_freeze_line, take_record, raise_marks, no_aggregates,
}
use true_pad.Store.Valid.{is_valid_head}
use true_pad.Store.Load.{Dir, LoadedStore, effective_state, load_store}
use true_pad.Store.Write.{
  Write, secret_body, head_file, journal_line, is_safe_record, write, run, commit_advance,
}
use true_pad.Store.Appended.{Opens, loaded_of, load_store_inv, load_store-Opens}
use true_pad.Store.Crash.{write_head_Opens, write_line_Opens}
use true_pad.Base.{
  ℕ, zero, suc, ◌≤◌, ◌≡◌, inr, ◌+◌, refl, sym, ap, ◌∙◌, true, List, [], ◌∷◌, arith, take, max,
}

-- A header takes the place of another: both budgets stay, and neither the next sequence nor the next
-- offset goes back.
pub record IsForward (old new : HeadV2) : Type 0 where
  pub same_capacity : old.encryption.capacity ≡ new.encryption.capacity
  pub same_records : old.authentication.capacity_records ≡ new.authentication.capacity_records
  pub sequence_up : old.authentication.next_sequence ≤ new.authentication.next_sequence
  pub offset_up : old.encryption.next_offset ≤ new.encryption.next_offset

-- The marks of a line are no higher than the header's counters, and its numbers are safe integers.
pub record IsCovered (head : HeadV2) (line : JournalRecord) : Type 0 where
  pub line_safe : is_safe_record line ≡ true
  pub sequence_covered :
      (take_record no_aggregates line).max_next_sequence ≤ head.authentication.next_sequence
  pub offset_covered :
      (take_record no_aggregates line).max_next_offset ≤ head.encryption.next_offset

-- What a line makes of an upper bound on the failures that the journal counts.
unfoldable pub failures_after : JournalRecord → ℕ → ℕ
failures_after (auth_fail_line _ failure_count) count = max (count + 1) failure_count
failures_after (init_line _ _ _ _) count = count
failures_after (send_line _ _ _ _ _) count = count
failures_after (attempt_line _) count = count
failures_after (open_line _ _ _ _ _ _) count = count
failures_after (retire_line _ _ _) count = count
failures_after (clear_freeze_line _) count = count

-- Every header of the writes moves forward and passes the validation of a load, every line is covered
-- by the header before it, and neither counts more failures than `bound`, where the journal before the
-- writes has at most `count`.
unfoldable pub IsSafe : ℕ → ℕ → HeadV2 → List Write → Type 0
IsSafe bound count head [] = Unit
IsSafe bound count head (secret_body bytes ∷ ws) = ⊥
IsSafe bound count head (head_file new ∷ ws) =
    IsForward head new
    × (is_valid_head new ≡ true)
    × (new.verification.failure_count ≤ bound)
    × IsSafe bound count new ws
IsSafe bound count head (journal_line line ∷ ws) =
    IsCovered head line
    × (failures_after line count ≤ bound)
    × IsSafe bound (failures_after line count) head ws

pub IsForward-refl : (h : HeadV2) → IsForward h h
IsForward-refl h = record {
  same_capacity = refl;
  same_records = refl;
  sequence_up = omega arith;
  offset_up = omega arith;
}

pub IsForward-trans : (a b c : HeadV2) → IsForward a b → IsForward b c → IsForward a c
IsForward-trans a b c p q = record {
  same_capacity = p.same_capacity ∙ q.same_capacity;
  same_records = p.same_records ∙ q.same_records;
  sequence_up = let x = p.sequence_up in let y = q.sequence_up in omega arith;
  offset_up = let x = p.offset_up in let y = q.offset_up in omega arith;
}

pub IsSafe-take :
    (bound count : ℕ) (h : HeadV2) (n : ℕ) (ws : List Write)
    → IsSafe bound count h ws
    → IsSafe bound count h (take n ws)
unfolding IsSafe
IsSafe-take bound count h zero ws s = tt
IsSafe-take bound count h (suc n) [] s = tt
IsSafe-take bound count h (suc n) (secret_body bytes ∷ ws) s = s
IsSafe-take bound count h (suc n) (head_file new ∷ ws) s =
    (s.0, s.1, s.2, IsSafe-take bound count new n ws s.3)
IsSafe-take bound count h (suc n) (journal_line line ∷ ws) s =
    (s.0, s.1, IsSafe-take bound (failures_after line count) h n ws s.2)

take_record-failures :
    (j : JournalAggregates) (r : JournalRecord) (count : ℕ)
    → j.failure_count ≤ count
    → (take_record j r).failure_count ≤ failures_after r count
unfolding take_record raise_marks failures_after
take_record-failures j (init_line _ _ _ _) count h = h
take_record-failures j (send_line _ _ _ _ _) count h = h
take_record-failures j (attempt_line _) count h = h
take_record-failures j (auth_fail_line _ n) count h = omega arith
take_record-failures j (open_line _ _ _ _ _ _) count h = h
take_record-failures j (retire_line _ _ _) count h = h
take_record-failures j (clear_freeze_line _) count h = h

run-Opens :
    (bound count : ℕ) (d : Dir) (h : HeadV2) (j : JournalAggregates) (ws : List Write)
    → Opens d h j
    → h.verification.failure_count ≤ bound
    → j.failure_count ≤ count
    → count ≤ bound
    → IsSafe bound count h ws
    → (g : HeadV2) × (k : JournalAggregates) × Opens (run d ws) g k
      × IsForward h g
      × (max g.verification.failure_count k.failure_count ≤ bound)
unfolding IsSafe run
run-Opens bound count d h j [] o a b c s = (h, j, o, IsForward-refl h, omega arith)
run-Opens bound count d h j (secret_body bytes ∷ ws) o a b c s = absurd s
run-Opens bound count d h j (head_file new ∷ ws) o few least most s =
    let f = s.0 in
    let a = f.sequence_up in
    let b = f.offset_up in
    let p = o.sequence_mark in
    let q = o.offset_mark in
    let w =
      write_head_Opens d h new j o f.same_capacity f.same_records s.1 (omega arith) (omega arith) in
    let x = s.2 in
    let (g, k, r, t, fewer) =
      run-Opens bound count (write d (head_file new)) new j ws w x least most s.3 in
    (g, k, r, IsForward-trans h new g f t, fewer)
run-Opens bound count d h j (journal_line line ∷ ws) o few least most s =
    let c = s.0 in
    let w = write_line_Opens d h j line o c.line_safe c.sequence_covered c.offset_covered in
    let x = s.1 in
    run-Opens bound (failures_after line count) (write d (journal_line line)) h (take_record j line)
      ws w few (take_record-failures j line count least) x s.2

-- A store that loads still loads after any prefix of writes whose headers pass the validation, keep both
-- budgets and move neither counter back, and whose lines have safe integers and are covered by the
-- header before them: the budgets are then the same and neither counter has gone back. Where neither
-- the store nor the writes count more failures than a bound, the store does not do so afterwards.
pub load_store-prefix :
    (bound : ℕ) (d : Dir) (l : LoadedStore) (n : ℕ) (ws : List Write)
    → load_store d ≡ inr l
    → l.effective.failure_count ≤ bound
    → IsSafe bound l.effective.failure_count l.head ws
    → (m : LoadedStore) × (load_store (run d (take n ws)) ≡ inr m)
      × IsForward l.head m.head
      × (m.effective.failure_count ≤ bound)
unfolding effective_state
load_store-prefix bound d l n ws h b s =
    let (j, o, e) = load_store_inv d l h in
    let few = ap (λ x. x.effective.failure_count) e in
    let (g, k, r, f, fewer) =
      run-Opens bound l.effective.failure_count d l.head j (take n ws) o (omega arith) (omega arith)
        b (IsSafe-take bound l.effective.failure_count l.head n ws s) in
    (loaded_of g k, load_store-Opens (run d (take n ws)) g k r, f, fewer)

pub commit-IsSafe :
    (bound count : ℕ) (old new : HeadV2) (line : JournalRecord)
    → IsForward old new
    → is_valid_head new ≡ true
    → new.verification.failure_count ≤ bound
    → IsCovered new line
    → failures_after line count ≤ bound
    → IsSafe bound count old (commit_advance new line)
unfolding IsSafe commit_advance
commit-IsSafe bound count old new line f v b c r = (f, v, b, (c, r, tt))

-- The counters that a load reports are those of its header, which passes the validation.
pub load_store-counters :
    (d : Dir) (l : LoadedStore)
    → load_store d ≡ inr l
    → (l.effective.next_sequence ≡ l.head.authentication.next_sequence)
      × (l.effective.next_offset ≡ l.head.encryption.next_offset)
      × (is_valid_head l.head ≡ true)
      × (l.head.verification.failure_count ≤ l.effective.failure_count)
unfolding effective_state
load_store-counters d l h =
    let (j, o, e) = load_store_inv d l h in
    (
      sym (ap (λ x. x.effective.next_sequence) e),
      sym (ap (λ x. x.effective.next_offset) e),
      o.head_valid,
      let f = ap (λ x. x.effective.failure_count) e in omega arith,
    )
