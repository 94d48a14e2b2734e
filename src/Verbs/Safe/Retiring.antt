-- ===== src/Verbs/Safe/Retiring.antt =====
-- The writes of `retire` and `clearFreeze` of src/cli/v2/truepad2.ts may be cut off anywhere.
use true_pad.Direction.{Direction}
use true_pad.Store.Journal.{take_record, raise_marks, retire_line, clear_freeze_line}
use true_pad.Store.Load.{LoadedStore}
use true_pad.Store.Write.{Write, commit_advance, is_safe_record}
use true_pad.Store.Valid.{has_fixed_domains, is_valid_head, is_valid_head_inv, is_valid_head_lem}
use true_pad.Store.Safe.{failures_after, IsSafe, commit-IsSafe}
use true_pad.Verbs.Outcome.{
  released, check, ◌>>=◌, writes_of, after_free, writes_of-bind, writes_of-check, writes_of-before,
  check-released, check_then_inv,
}
use true_pad.Verbs.Pair.{LoadedPair, half, frozen_half}
use true_pad.Verbs.Witness.{
  Witness, witness_preflight, witness_advance, writes_of-witness_preflight,
  writes_of-witness_advance,
}
use true_pad.Verbs.Operator.{
  retire_offset, retired_head, attempts_from, retired_counters, retire_commit, retire, cleared_head,
  clear_freeze_half,
}
use true_pad.Verbs.Safe.{IsLoaded, advanced_head-valid, loaded-HasCapacities}
use true_pad.Base.{
  ℕ, ◌+◌, ◌≤◌, ◌≡◌, refl, sym, ap, subst, ◌∙◌, true, false, List, [], ◌++◌, Option, none, some,
  arith, if◌then◌else◌, append-nil, max_safe,
}

pub writes_of-retire_offset :
    (store : LoadedStore) (t : Option ℕ) → writes_of (retire_offset store t) ≡ []
unfolding retire_offset writes_of
writes_of-retire_offset store none = refl
writes_of-retire_offset store (some t) =
    writes_of-bind (check _ _) _ (writes_of-check _ _)
      (λ _. writes_of-bind (check _ _) _ (writes_of-check _ _) (λ _. refl))

retire_offset_inv :
    (store : LoadedStore) (t : Option ℕ) (n : ℕ) (ws : List Write)
    → IsLoaded store
    → retire_offset store t ≡ released n ws
    → (store.effective.next_offset ≤ n) × (n ≤ store.head.encryption.capacity)
unfolding retire_offset
retire_offset_inv store none n ws l h =
    let a = l.offset_eq in
    let b = (is_valid_head_inv store.head l.head_valid).1.offset_fits in
    let e : store.effective.next_offset ≡ n = ground arith in (omega arith, omega arith)
retire_offset_inv store (some t) n ws l h =
    let (a, h1) = check_then_inv _ _ _ n ws h in
    let (b, h2) = check_then_inv _ _ _ n ws h1 in
    let e : t + 1 ≡ n = ground arith in (ground arith, ground arith)

pub writes_of-retire_commit :
    (w : Witness) (store : LoadedStore) (s : ℕ) (reason : List ℕ) (o : ℕ)
    → writes_of (retire_commit w store s reason o)
      ≡ commit_advance (retired_head store o s) (retire_line s o reason)
unfolding retire_commit ◌>>=◌ writes_of
writes_of-retire_commit w store s reason o =
    let ws = commit_advance (retired_head store o s) (retire_line s o reason) in
    let advance = witness_advance store.head.rollback w (retired_counters store o s) in
    writes_of-before ws (advance >>= λ _. released (s, o) [])
    ∙ ap (λ v. ws ++ v)
        (writes_of-bind advance (λ _. released (s, o) [])
          (writes_of-witness_advance store.head.rollback w (retired_counters store o s))
          (λ _. refl))
    ∙ append-nil ws

retire_line-safe :
    (store : LoadedStore) (s : ℕ) (reason : List ℕ) (o : ℕ)
    → IsLoaded store
    → o ≤ store.head.encryption.capacity
    → s ≤ store.head.authentication.capacity_records
    → is_safe_record (retire_line s o reason) ≡ true
unfolding is_safe_record
retire_line-safe store s reason o l t r =
    let k = loaded-HasCapacities store l in
    let a = k.bytes_fit in let b = k.records_fit in ground arith

cleared_line-safe : (n : ℕ) → n ≤ max_safe → is_safe_record (clear_freeze_line n) ≡ true
unfolding is_safe_record
cleared_line-safe n h = ground arith

retire_commit-IsSafe :
    (bound : ℕ) (w : Witness) (store : LoadedStore) (s : ℕ) (reason : List ℕ) (o : ℕ)
    → IsLoaded store
    → store.effective.failure_count ≤ bound
    → store.effective.next_sequence ≤ s
    → store.effective.next_offset ≤ o
    → s ≤ store.head.authentication.capacity_records
    → o ≤ store.head.encryption.capacity
    → IsSafe bound store.effective.failure_count store.head
        (writes_of (retire_commit w store s reason o))
unfolding take_record raise_marks failures_after
retire_commit-IsSafe bound w store s reason o l few p q r t =
    let x = l.sequence_eq in
    let y = l.offset_eq in
    subst (IsSafe bound store.effective.failure_count store.head)
      (sym (writes_of-retire_commit w store s reason o))
      (commit-IsSafe bound store.effective.failure_count store.head (retired_head store o s)
        (retire_line s o reason)
        (record {
          same_capacity = refl;
          same_records = refl;
          sequence_up = omega arith;
          offset_up = omega arith;
        })
        (advanced_head-valid store.head o s
          (attempts_from s store.head.verification.per_sequence_attempts) l.head_valid t r)
        (omega (arith, l.failures_le))
        (record {
          line_safe = retire_line-safe store s reason o l t r;
          sequence_covered = omega arith;
          offset_covered = omega arith;
        })
        few)

-- Whatever `retire` ends with, on a loaded store: each header that it writes passes the validation of a
-- load, keeps both budgets and moves neither the next sequence nor the next offset back, and each
-- journal line has safe integers and no marks above the header before it. No more failures are counted than a bound that
-- the store keeps to.
pub retire-IsSafe :
    (bound : ℕ) (d : Direction) (through : ℕ) (offset : Option ℕ) (reason : List ℕ) (w : Witness)
    (pair : LoadedPair)
    → IsLoaded (half pair d)
    → (half pair d).effective.failure_count ≤ bound
    → IsSafe bound
        (half pair d).effective.failure_count
        (half pair d).head
        (writes_of (retire d through offset reason w pair))
unfolding retire IsSafe
retire-IsSafe bound d through offset reason w pair l few =
    let store = half pair d in
    let P : List Write → Type 0 = IsSafe bound store.effective.failure_count store.head in
    after_free P (witness_preflight store.head.rollback w store.effective) _ tt
      (writes_of-witness_preflight store.head.rollback w store.effective)
      (λ _ _. after_free P (check _ _) _ tt (writes_of-check _ _) (λ _ f.
        let fits = check-released _ _ [] f in
        after_free P (check _ _) _ tt (writes_of-check _ _) (λ u h.
          let past = check-released _ _ [] h in
          after_free P (retire_offset store offset) _ tt (writes_of-retire_offset store offset)
            (λ o k.
              let (up, within) = retire_offset_inv store offset o [] l k in
              retire_commit-IsSafe bound w store (through + 1) reason o l few (ground arith) up
                (ground arith) within))))

cleared_head-valid :
    (store : LoadedStore)
    → IsLoaded store
    → store.effective.failure_count ≤ max_safe
    → is_valid_head (cleared_head store) ≡ true
unfolding cleared_head has_fixed_domains
cleared_head-valid store l b =
    let (f, c) = is_valid_head_inv store.head l.head_valid in
    is_valid_head_lem (cleared_head store) f (record {
      offset_fits = c.offset_fits;
      sequence_fits = c.sequence_fits;
      failures_fit = b;
      cleared_fits = b;
    })

-- Clearing a freeze moves no counter.
pub clear_freeze_half-IsSafe :
    (bound : ℕ) (store : LoadedStore)
    → IsLoaded store
    → store.effective.failure_count ≤ bound
    → store.effective.failure_count ≤ max_safe
    → IsSafe bound store.effective.failure_count store.head (clear_freeze_half store)
unfolding clear_freeze_half cleared_head IsSafe take_record commit_advance failures_after
clear_freeze_half-IsSafe bound store l few c =
    elim (frozen_half store)
      as (λ b. IsSafe bound store.effective.failure_count store.head (
        if b
        then commit_advance (cleared_head store) (clear_freeze_line store.effective.failure_count)
        else [])) [
          | true ↦ (
            record {
              same_capacity = refl;
              same_records = refl;
              sequence_up = omega arith;
              offset_up = omega arith;
            },
            cleared_head-valid store l c,
            few,
            (
              record {
                line_safe = cleared_line-safe store.effective.failure_count c;
                sequence_covered = omega arith;
                offset_covered = omega arith;
              },
              few,
              tt,
            ),
          )
          | false ↦ tt
        ]
