-- ===== src/Store/Metered.antt =====
-- Writes that leave no sequence with more verification attempts than the header's limit.
use true_pad.Store.Head.{HeadV2}
use true_pad.Store.Journal.{
  JournalAggregates, JournalRecord, init_line, send_line, attempt_line, auth_fail_line, open_line,
  retire_line, clear_freeze_line, take_record, raise_marks, count_one,
}
use true_pad.Store.Load.{Dir}
use true_pad.Store.Write.{Write, secret_body, head_file, journal_line, write, run}
use true_pad.Store.Appended.{Opens}
use true_pad.Store.Crash.{write_head_Opens, write_line_Opens}
use true_pad.Store.Safe.{failures_after, IsSafe}
use true_pad.Base.{ℕ, zero, suc, ◌≤◌, ◌≡◌, refl, subst, List, [], ◌∷◌, arith, take}

-- No sequence has more than `limit` attempts.
abbrev pub AtMost : ℕ → (ℕ → ℕ) → Type 0
AtMost limit counts = (sequence : ℕ) → counts sequence ≤ limit

-- The journal's counts of attempts after one more line.
unfoldable pub counts_after : JournalRecord → (ℕ → ℕ) → ℕ → ℕ
counts_after (attempt_line sequence) counts = count_one sequence counts
counts_after (init_line _ _ _ _) counts = counts
counts_after (send_line _ _ _ _ _) counts = counts
counts_after (auth_fail_line _ _) counts = counts
counts_after (open_line _ _ _ _ _ _) counts = counts
counts_after (retire_line _ _ _) counts = counts
counts_after (clear_freeze_line _) counts = counts

pub counts_after-take_record :
    (j : JournalAggregates) (line : JournalRecord)
    → counts_after line j.attempt_counts ≡ (take_record j line).attempt_counts
unfolding counts_after take_record raise_marks
counts_after-take_record j (init_line _ _ _ _) = refl
counts_after-take_record j (send_line _ _ _ _ _) = refl
counts_after-take_record j (attempt_line _) = refl
counts_after-take_record j (auth_fail_line _ _) = refl
counts_after-take_record j (open_line _ _ _ _ _ _) = refl
counts_after-take_record j (retire_line _ _ _) = refl
counts_after-take_record j (clear_freeze_line _) = refl

-- A header that has this limit and whose own counts keep to it.
pub record IsLimited (limit : ℕ) (head : HeadV2) : Type 0 where
  pub limit_eq : head.authentication.verify_attempt_limit ≡ limit
  pub counts_kept : AtMost limit head.verification.per_sequence_attempts

-- Every header of the writes and the journal after each line keep to the limit.
unfoldable pub IsMetered : ℕ → (ℕ → ℕ) → List Write → Type 0
IsMetered limit counts [] = Unit
IsMetered limit counts (secret_body bytes ∷ ws) = ⊥
IsMetered limit counts (head_file new ∷ ws) = IsLimited limit new × IsMetered limit counts ws
IsMetered limit counts (journal_line line ∷ ws) =
    AtMost limit (counts_after line counts) × IsMetered limit (counts_after line counts) ws

pub IsMetered-take :
    (limit : ℕ) (counts : ℕ → ℕ) (n : ℕ) (ws : List Write)
    → IsMetered limit counts ws
    → IsMetered limit counts (take n ws)
unfolding IsMetered
IsMetered-take limit counts zero ws m = tt
IsMetered-take limit counts (suc n) [] m = tt
IsMetered-take limit counts (suc n) (secret_body bytes ∷ ws) m = m
IsMetered-take limit counts (suc n) (head_file new ∷ ws) m =
    (m.0, IsMetered-take limit counts n ws m.1)
IsMetered-take limit counts (suc n) (journal_line line ∷ ws) m =
    (m.0, IsMetered-take limit (counts_after line counts) n ws m.1)

-- A directory that loads with all counts of attempts within the limit.
pub record IsWithin (limit : ℕ) (d : Dir) (head : HeadV2) (j : JournalAggregates) : Type 0 where
  pub opens : Opens d head j
  pub head_limited : IsLimited limit head
  pub journal_kept : AtMost limit j.attempt_counts

pub run-IsWithin :
    (limit bound count : ℕ) (d : Dir) (h : HeadV2) (j : JournalAggregates) (ws : List Write)
    → IsWithin limit d h j
    → IsSafe bound count h ws
    → IsMetered limit j.attempt_counts ws
    → (g : HeadV2) × (k : JournalAggregates) × IsWithin limit (run d ws) g k
unfolding IsSafe IsMetered run
run-IsWithin limit bound count d h j [] o s m = (h, j, o)
run-IsWithin limit bound count d h j (secret_body bytes ∷ ws) o s m = absurd s
run-IsWithin limit bound count d h j (head_file new ∷ ws) o s m =
    let f = s.0 in
    let a = f.sequence_up in
    let b = f.offset_up in
    let opens = o.opens in
    let p = opens.sequence_mark in
    let q = opens.offset_mark in
    let w =
      write_head_Opens d h new j opens f.same_capacity f.same_records s.1 (omega arith)
        (omega arith) in
    run-IsWithin limit bound count (write d (head_file new)) new j ws
      (record { opens = w; head_limited = m.0; journal_kept = o.journal_kept }) s.3 m.1
run-IsWithin limit bound count d h j (journal_line line ∷ ws) o s m =
    let c = s.0 in
    let w = write_line_Opens d h j line o.opens c.line_safe c.sequence_covered c.offset_covered in
    let e = counts_after-take_record j line in
    run-IsWithin limit bound (failures_after line count) (write d (journal_line line)) h
      (take_record j line) ws
      (record {
        opens = w;
        head_limited = o.head_limited;
        journal_kept = subst (AtMost limit) e m.0;
      })
      s.2 (subst (λ counts. IsMetered limit counts ws) e m.1)
