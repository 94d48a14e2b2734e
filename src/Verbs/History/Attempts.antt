-- ===== src/Verbs/History/Attempts.antt =====
-- The verification attempts of a record over the life of a direction's directory.
use true_pad.Direction.{Direction}
use true_pad.Store.Head.{HeadV2}
use true_pad.Store.Journal.{JournalAggregates}
use true_pad.Store.Load.{Dir, LoadedStore, effective_state, load_store}
use true_pad.Store.Write.{Write, run}
use true_pad.Store.Appended.{loaded_of, load_store_inv, load_store-Opens}
use true_pad.Store.Safe.{IsSafe, IsSafe-take}
use true_pad.Store.Metered.{AtMost, IsMetered, IsMetered-take, IsWithin, run-IsWithin}
use true_pad.Verbs.Outcome.{writes_of}
use true_pad.Verbs.Pair.{burning, direction_for, LoadedPair, half}
use true_pad.Envelope.{EnvelopeV2}
use true_pad.Verbs.Burn.{burn}
use true_pad.Verbs.Metered.{
  IsCounted, burn-IsMetered, open_envelope-IsMetered, retire-IsMetered, clear_freeze_half-IsMetered,
}
use true_pad.Verbs.History.{
  VerbWrites, by_burn, by_open, by_retire, by_clear_freeze, History, started, sent, cut, verbs_run,
}
use true_pad.Verbs.History.NoReuse.{loaded, VerbWrites-IsSafe, same_store, History-no_reuse}
use true_pad.Base.{take_all}
use true_pad.Base.{
  ℕ, ◌+◌, ◌<◌, max_safe, ◌≤◌, ◌≡◌, inr, refl, sym, ap, subst, ◌∙◌, List, arith, length, take,
}

VerbWrites-IsMetered :
    (pair : LoadedPair) (d : Direction) (ws : List Write) (counts : ℕ → ℕ)
    → VerbWrites pair d ws
    → IsCounted (half pair d) counts
    → IsMetered (half pair d).head.authentication.verify_attempt_limit counts ws
VerbWrites-IsMetered pair _ _ counts (by_burn role p w secret) c =
    burn-IsMetered role p w secret pair counts c
VerbWrites-IsMetered pair _ _ counts (by_open role decoded w secret) c =
    open_envelope-IsMetered role decoded w secret pair counts c
VerbWrites-IsMetered pair _ _ counts (by_retire d through offset reason w) c =
    retire-IsMetered d through offset reason w pair counts c
VerbWrites-IsMetered pair _ _ counts (by_clear_freeze d) c =
    clear_freeze_half-IsMetered (half pair d) counts c

-- The counts of a directory within the limit, as a load reports them.
counted :
    (limit : ℕ) (d : Dir) (h : HeadV2) (j : JournalAggregates)
    → IsWithin limit d h j
    → IsCounted (loaded_of h j) j.attempt_counts
unfolding effective_state
counted limit d h j o = record {
  head_counts = λ n. omega arith;
  journal_counts = λ n. omega arith;
  kept = λ n.
      let l = o.head_limited in
      let e = l.limit_eq in let a = l.counts_kept n in let b = o.journal_kept n in omega arith;
}

-- One verb that is cut off, on a directory within the limit.
verb-IsWithin :
    (limit : ℕ) (t : Dir) (h : HeadV2) (j : JournalAggregates) (pair : LoadedPair) (d : Direction)
    (ws : List Write) (n : ℕ)
    → IsWithin limit t h j
    → load_store t ≡ inr (half pair d)
    → (half pair d).effective.failure_count < max_safe
    → VerbWrites pair d ws
    → (g : HeadV2) × (k : JournalAggregates) × IsWithin limit (run t (take n ws)) g k
verb-IsWithin limit t h j pair d ws n o g few v =
    let e = same_store t (loaded_of h j) (half pair d) (load_store-Opens t h j o.opens) g in
    let c = subst (λ s. IsCounted s j.attempt_counts) e (counted limit t h j o) in
    let bound = (half pair d).effective.failure_count + 1 in
    let count = (half pair d).effective.failure_count in
    let safe = VerbWrites-IsSafe pair d ws v (loaded t (half pair d) g) few in
    let metered = VerbWrites-IsMetered pair d ws j.attempt_counts v c in
    let same_head : (half pair d).head ≡ h = ap (λ s. s.head) (sym e) in
    let l = o.head_limited in
    run-IsWithin limit bound count t h j (take n ws) o
      (IsSafe-take bound count h n ws (subst (λ x. IsSafe bound count x ws) same_head safe))
      (IsMetered-take limit j.attempt_counts n ws (
        subst (λ x. IsMetered x j.attempt_counts ws)
          (ap (λ x. x.authentication.verify_attempt_limit) same_head ∙ l.limit_eq) metered))

-- The failures that a load counts after a history, while a verb may still run.
failures_left :
    (s : Dir) (l : LoadedStore) (es : List EnvelopeV2) (t : Dir) (m : LoadedStore)
    → load_store s ≡ inr l
    → (r : History s es t) → l.effective.failure_count + verbs_run r < max_safe
    → load_store t ≡ inr m
    → m.effective.failure_count < max_safe
failures_left s l es t m h r few g =
    let (k, loads, _, fails, _, _) = History-no_reuse s l es t h r (omega arith) in
    let same_k = ap (λ x. x.effective.failure_count) (same_store t k m loads g) in omega arith

History-IsWithin :
    (limit : ℕ) (s : Dir) (l : LoadedStore) (h : HeadV2) (j : JournalAggregates)
    (es : List EnvelopeV2) (t : Dir)
    → load_store s ≡ inr l
    → IsWithin limit s h j
    → (r : History s es t) → l.effective.failure_count + verbs_run r ≤ max_safe
    → (g : HeadV2) × (k : JournalAggregates) × IsWithin limit t g k
unfolding writes_of verbs_run
History-IsWithin limit s l h j _ _ q o started few = (h, j, o)
History-IsWithin limit s l h j _ _ loads o (sent es t pair role p w secret e ws before_it g b) few =
    let (x, y, z) = History-IsWithin limit s l h j es t loads o before_it (omega arith) in
    let (a, c, q) =
      verb-IsWithin limit t x y pair (direction_for role burning)
        (writes_of (burn role p w secret pair)) (length ws) z g
        (failures_left s l es t (half pair (direction_for role burning)) loads before_it
          (omega arith) g)
        (by_burn role p w secret) in
    (
      a,
      c,
      subst (λ v. IsWithin limit (run t v) a c)
          (ap (λ v. take (length ws) (writes_of v)) b ∙ take_all (length ws) ws (omega arith)) q,
    )
History-IsWithin limit s l h j _ _ loads o (cut es t pair d ws n before_it g v) few =
    let (x, y, z) = History-IsWithin limit s l h j es t loads o before_it (omega arith) in
    verb-IsWithin limit t x y pair d ws n z g
      (failures_left s l es t (half pair d) loads before_it (omega arith) g) v

-- From a directory that loads with no sequence past the limit of attempts, whatever verbs run on it and
-- wherever each is cut off between two of its writes, as long as the failures counted at the start and
-- the number of verbs are a safe integer together: it still loads with the same limit, and no sequence
-- is past it.
pub History-attempts :
    (s : Dir) (l : LoadedStore) (es : List EnvelopeV2) (t : Dir)
    → load_store s ≡ inr l
    → AtMost l.head.authentication.verify_attempt_limit l.effective.attempts
    → (r : History s es t) → l.effective.failure_count + verbs_run r ≤ max_safe
    → (m : LoadedStore) × (load_store t ≡ inr m)
      × (m.head.authentication.verify_attempt_limit ≡ l.head.authentication.verify_attempt_limit)
      × AtMost l.head.authentication.verify_attempt_limit m.effective.attempts
unfolding effective_state
History-attempts s l es t h kept r few =
    let (j, o, e) = load_store_inv s l h in
    let limit = l.head.authentication.verify_attempt_limit in
    let both : (n : ℕ)
        → (l.head.verification.per_sequence_attempts n ≤ limit) × (j.attempt_counts n ≤ limit) =
      λ n.
        let a = kept n in
        let q = ap (λ x. x.effective.attempts n) e in (omega arith, omega arith) in
    let start : IsWithin limit s l.head j = record {
      opens = o;
      head_limited = record { limit_eq = refl; counts_kept = λ n. (both n).0 };
      journal_kept = λ n. (both n).1;
    } in
    let (g, k, w) = History-IsWithin limit s l l.head j es t h start r few in
    let q = w.head_limited in
    (
      loaded_of g k,
      load_store-Opens t g k w.opens,
      q.limit_eq,
      λ n. let a = q.counts_kept n in let b = w.journal_kept n in omega arith,
    )
