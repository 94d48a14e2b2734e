-- ===== src/Verbs/Safe/Failing.antt =====
-- The writes of `open` of src/cli/v2/truepad2.ts on a tag that does not verify may be cut off anywhere.
use true_pad.Verbs.Safe.Parts.{fail_writes, persist_auth_fail_inv, durable_refused}
use true_pad.Store.Journal.{take_record}
use true_pad.Store.Load.{LoadedStore}
use true_pad.Store.Write.{failed_head, is_safe_record}
use true_pad.Store.Valid.{has_fixed_domains, is_valid_head, is_valid_head_inv, is_valid_head_lem}
use true_pad.Store.Safe.{failures_after, IsSafe}
use true_pad.Verbs.Outcome.{
  refused, attempt, writes_of, after_free, writes_of-attempt, attempt-released, auth_failed,
}
use true_pad.Verbs.Open.{fail_head, open_fail}
use true_pad.Verbs.Safe.{IsLoaded}
use true_pad.Base.{ℕ, ◌+◌, ◌≤◌, ◌<◌, ◌≡◌, refl, sym, subst, ◌∙◌, true, [], arith, max_safe}

-- The header of one more failure is valid as long as the count is a safe integer.
fail_head-valid :
    (store : LoadedStore) (n : ℕ)
    → IsLoaded store
    → store.effective.failure_count < max_safe
    → is_valid_head (failed_head (fail_head store n) n) ≡ true
unfolding failed_head fail_head has_fixed_domains
fail_head-valid store n l b =
    let (f, c) = is_valid_head_inv store.head l.head_valid in
    is_valid_head_lem (failed_head (fail_head store n) n) f (record {
      offset_fits = c.offset_fits;
      sequence_fits = c.sequence_fits;
      failures_fit = omega arith;
      cleared_fits = c.cleared_fits;
    })

fail_writes-IsSafe :
    (store : LoadedStore) (n : ℕ)
    → IsLoaded store
    → store.effective.failure_count < max_safe
    → n ≤ max_safe
    → IsSafe
        (store.effective.failure_count + 1)
        store.effective.failure_count
        store.head
        (fail_writes store n)
unfolding failed_head fail_head IsSafe take_record failures_after is_safe_record
fail_writes-IsSafe store n l b small = (
  record { line_safe = ground arith; sequence_covered = omega arith; offset_covered = omega arith },
  omega arith,
  (
    record {
      same_capacity = refl;
      same_records = refl;
      sequence_up = omega arith;
      offset_up = omega arith;
    },
    unfold failed_head fail_head in fail_head-valid store n l b,
    omega arith,
    tt,
  ),
)

pub open_fail-IsSafe :
    (store : LoadedStore) (n : ℕ)
    → IsLoaded store
    → store.effective.failure_count < max_safe
    → n ≤ max_safe
    → IsSafe
        (store.effective.failure_count + 1)
        store.effective.failure_count
        store.head
        (writes_of (open_fail store n))
unfolding open_fail IsSafe writes_of
open_fail-IsSafe store n l b small =
    after_free (IsSafe (store.effective.failure_count + 1) store.effective.failure_count store.head)
      (attempt _) _ tt (writes_of-attempt _)
      (λ ws e.
        subst (IsSafe (store.effective.failure_count + 1) store.effective.failure_count store.head)
          (persist_auth_fail_inv store n ws (attempt-released _ ws [] e).0
            ∙ sym (durable_refused ws (λ _. refused auth_failed []) refl))
          (fail_writes-IsSafe store n l b small))
