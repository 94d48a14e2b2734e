-- ===== src/Verbs/Metered.antt =====
-- The writes of every verb of src/cli/v2/truepad2.ts keep the attempts of each sequence within the limit.
use true_pad.Direction.{Direction}
use true_pad.Store.Head.{HeadV2}
use true_pad.Store.Journal.{JournalRecord, attempt_line, retire_line, clear_freeze_line, count_one}
use true_pad.Store.Load.{LoadedStore}
use true_pad.Store.Write.{Write, journal_line, failed_head, commit_advance}
use true_pad.Store.Metered.{AtMost, counts_after, IsLimited, IsMetered}
use true_pad.Verbs.Outcome.{
  Reason, Outcome, refused, failed, released, check, attempt, ◌>>=◌, writes_of, after_free,
  writes_of-check, writes_of-attempt, writes_of-before, attempt-released, auth_failed,
}
use true_pad.Verbs.Pair.{
  Party, burning, opening, direction_for, LoadedPair, half, require_not_frozen, frozen_half,
}
use true_pad.Verbs.Witness.{Witness, witness_preflight, writes_of-witness_preflight}
use true_pad.Envelope.{EnvelopeV2}
use true_pad.Verbs.Burn.{burn_payload, burn_checks, burn_staged, burn, sent_head, sent_line}
use true_pad.Verbs.Open.{
  decoded_envelope, open_structural, open_window, open_gates, fail_head, open_fail, opened_head,
  opened_line, opened_counters, unframed, open_pass, open_reserve, expected_tag, open_verify,
  open_envelope,
}
use true_pad.Verbs.Operator.{retire_offset, retired_head, retire, cleared_head, clear_freeze_half}
use true_pad.Verbs.Safe.{
  writes_of-require_not_frozen, writes_of-burn_payload, writes_of-burn_checks,
  writes_of-burn_staged, writes_of-burn_commit,
}
use true_pad.Verbs.Safe.Parts.{
  writes_of-decoded_envelope, writes_of-open_structural, writes_of-open_window,
  writes_of-open_gates, writes_of-expected_tag, writes_of-open_reserve, writes_of-unframed,
  advance_writes, durable_refused, persist_auth_fail_inv,
}
use true_pad.Verbs.Safe.Retiring.{writes_of-retire_offset, writes_of-retire_commit}
use true_pad.Verbs.Opened.{gates_inv}
use true_pad.Base.Xor.{xor_bytes}
use true_pad.Tag.{tags_equal}
use true_pad.Base.{
  ℕ, ◌+◌, ◌≤◌, ◌<◌, ◌≡◌, ◌⊎◌, inl, inr, refl, sym, ap, subst, ◌∙◌, true, false, List, [], ◌∷◌, ◌++◌,
  Option, arith, Bytes, length, if◌then◌else◌,
}

-- A loaded store all of whose counts of attempts keep to its limit; `counts` are the journal's.
pub record IsCounted (store : LoadedStore) (counts : ℕ → ℕ) : Type 0 where
  pub head_counts :
      (n : ℕ) → store.head.verification.per_sequence_attempts n ≤ store.effective.attempts n
  pub journal_counts : (n : ℕ) → counts n ≤ store.effective.attempts n
  pub kept : AtMost store.head.authentication.verify_attempt_limit store.effective.attempts

abbrev limit_of : LoadedStore → ℕ
limit_of store = store.head.authentication.verify_attempt_limit

journal-AtMost :
    (store : LoadedStore) (counts : ℕ → ℕ) → IsCounted store counts → AtMost (limit_of store) counts
journal-AtMost store counts c n = omega (arith, c.journal_counts n, c.kept n)

head-AtMost :
    (store : LoadedStore) (counts : ℕ → ℕ)
    → IsCounted store counts
    → AtMost (limit_of store) store.head.verification.per_sequence_attempts
head-AtMost store counts c n = omega (arith, c.head_counts n, c.kept n)

-- A commit whose header keeps to the limit and whose line is no attempt.
commit-IsMetered :
    (limit : ℕ) (counts : ℕ → ℕ) (new : HeadV2) (line : JournalRecord)
    → IsLimited limit new
    → AtMost limit counts
    → counts_after line counts ≡ counts
    → IsMetered limit counts (commit_advance new line)
unfolding IsMetered commit_advance
commit-IsMetered limit counts new line h k e = (h, (subst (AtMost limit) (sym e) k, tt))

pub burn-IsMetered :
    (role : Party) (p : Bytes) (w : Witness) (secret : Bytes) (pair : LoadedPair) (counts : ℕ → ℕ)
    → IsCounted (half pair (direction_for role burning)) counts
    → IsMetered
        (limit_of (half pair (direction_for role burning)))
        counts
        (writes_of (burn role p w secret pair))
unfolding burn IsMetered counts_after
burn-IsMetered role p w secret pair counts c =
    let d = direction_for role burning in
    let store = half pair d in
    let P : List Write → Type 0 = IsMetered (limit_of store) counts in
    after_free P (require_not_frozen pair) _ tt (writes_of-require_not_frozen pair) (λ _ _.
      after_free P (witness_preflight store.head.rollback w store.effective) _ tt
        (writes_of-witness_preflight store.head.rollback w store.effective)
        (λ _ _.
          after_free P (burn_payload store.head.record_policy p) _ tt
            (writes_of-burn_payload store.head.record_policy p)
            (λ payload _.
              after_free P (burn_checks store (length payload)) _ tt
                (writes_of-burn_checks store (length payload))
                (λ _ _.
                  after_free P (burn_staged secret store d payload) _ tt
                    (writes_of-burn_staged secret store d payload)
                    (λ e _. subst P (sym (writes_of-burn_commit w store (length payload) e)) (
                      commit-IsMetered (limit_of store) counts (sent_head store (length payload))
                        (sent_line store (length payload))
                        (record { limit_eq = refl; counts_kept = head-AtMost store counts c })
                        (journal-AtMost store counts c) refl))))))

fail_counts :
    (store : LoadedStore) (counts : ℕ → ℕ) (n : ℕ)
    → IsCounted store counts
    → store.effective.attempts n < limit_of store
    → AtMost (limit_of store) (failed_head (fail_head store n) n).verification.per_sequence_attempts
unfolding failed_head fail_head
fail_counts store counts n c left k =
    let a = c.head_counts n in let b = c.head_counts k in let g = c.kept k in ground arith

fail_limit :
    (store : LoadedStore) (n : ℕ)
    → (failed_head (fail_head store n) n).authentication.verify_attempt_limit ≡ limit_of store
unfolding failed_head fail_head
fail_limit store n = refl

open_fail-IsMetered :
    (store : LoadedStore) (counts base : ℕ → ℕ) (n : ℕ)
    → IsCounted store counts
    → AtMost (limit_of store) base
    → store.effective.attempts n < limit_of store
    → IsMetered (limit_of store) base (writes_of (open_fail store n))
unfolding open_fail IsMetered writes_of counts_after
open_fail-IsMetered store counts base n c b left =
    after_free (IsMetered (limit_of store) base) (attempt _) _ tt (writes_of-attempt _) (λ ws e.
      subst (IsMetered (limit_of store) base)
        (persist_auth_fail_inv store n ws (attempt-released _ ws [] e).0
          ∙ sym (durable_refused ws (λ _. refused auth_failed []) refl))
        (
          b,
          (
            record {
              limit_eq = fail_limit store n;
              counts_kept = fail_counts store counts n c left;
            },
            tt,
          ),
        ))

open_pass-IsMetered :
    (w : Witness) (secret : Bytes) (store : LoadedStore) (e : EnvelopeV2) (counts base : ℕ → ℕ)
    → IsCounted store counts
    → AtMost (limit_of store) base
    → IsMetered (limit_of store) base (writes_of (open_pass w secret store e))
unfolding open_pass IsMetered counts_after
open_pass-IsMetered w secret store e counts base c b =
    after_free (IsMetered (limit_of store) base) (attempt _) _ tt (writes_of-attempt _) (λ pad _.
      subst (IsMetered (limit_of store) base)
        (sym (
          advance_writes store w (opened_counters store e)
            (commit_advance (opened_head store e) (opened_line store e))
            (unframed store.head.record_policy (xor_bytes e.ciphertext pad))
            (writes_of-unframed store.head.record_policy _)))
        (commit-IsMetered (limit_of store) base (opened_head store e) (opened_line store e)
          (record {
            limit_eq = refl;
            counts_kept = λ k. let h = head-AtMost store counts c k in ground arith;
          })
          b refl))

open_verify-IsMetered :
    (w : Witness) (secret : Bytes) (store : LoadedStore) (e : EnvelopeV2) (tag : Bytes)
    (counts base : ℕ → ℕ)
    → IsCounted store counts
    → AtMost (limit_of store) base
    → store.effective.attempts e.sequence < limit_of store
    → IsMetered (limit_of store) base (writes_of (open_verify w secret store e tag))
unfolding open_verify
open_verify-IsMetered w secret store e tag counts base c b left =
    elim (tags_equal tag e.tag)
      as (λ v. IsMetered (limit_of store) base (
        writes_of
          (elim v [ true ↦ open_pass w secret store e | false ↦ open_fail store e.sequence ]))) [
            | true ↦ open_pass-IsMetered w secret store e counts base c b
            | false ↦ open_fail-IsMetered store counts base e.sequence c b left
          ]

-- A part that writes one attempt, with another one left in the limit.
after_attempt :
    {A B : Type 0} (limit : ℕ) (counts : ℕ → ℕ) (n : ℕ) (o : Outcome A) (f : A → Outcome B)
    → AtMost limit counts
    → AtMost limit (count_one n counts)
    → (writes_of o ≡ []) ⊎ (writes_of o ≡ journal_line (attempt_line n) ∷ [])
    → ((a : A) (base : ℕ → ℕ) → AtMost limit base → IsMetered limit base (writes_of (f a)))
    → IsMetered limit counts (writes_of (o >>= f))
unfolding IsMetered ◌>>=◌ writes_of counts_after
after_attempt limit counts n o f b more (inl e) k =
    after_free (IsMetered limit counts) o f tt e (λ a _. k a counts b)
after_attempt limit counts n (refused r ws) f b more (inr e) k =
    subst (IsMetered limit counts) (sym e) (more, tt)
after_attempt limit counts n (failed ws) f b more (inr e) k =
    subst (IsMetered limit counts) (sym e) (more, tt)
after_attempt limit counts n (released a ws) f b more (inr e) k =
    subst (IsMetered limit counts)
      (sym (writes_of-before ws (f a) ∙ ap (λ v. v ++ writes_of (f a)) e))
      (more, k a (count_one n counts) more)

one_more :
    (store : LoadedStore) (counts : ℕ → ℕ) (n : ℕ)
    → IsCounted store counts
    → store.effective.attempts n < limit_of store
    → AtMost (limit_of store) (count_one n counts)
one_more store counts n c left k =
    let a = c.journal_counts n in let b = journal-AtMost store counts c k in ground arith

pub open_envelope-IsMetered :
    (role : Party) (decoded : Reason ⊎ EnvelopeV2) (w : Witness) (secret : Bytes)
    (pair : LoadedPair) (counts : ℕ → ℕ)
    → IsCounted (half pair (direction_for role opening)) counts
    → IsMetered
        (limit_of (half pair (direction_for role opening)))
        counts
        (writes_of (open_envelope role decoded w secret pair))
unfolding open_envelope IsMetered
open_envelope-IsMetered role decoded w secret pair counts c =
    let d = direction_for role opening in
    let store = half pair d in
    let P : List Write → Type 0 = IsMetered (limit_of store) counts in
    after_free P (decoded_envelope decoded) _ tt (writes_of-decoded_envelope decoded) (λ e _.
      after_free P (open_structural store d e) _ tt (writes_of-open_structural store d e) (λ _ _.
        after_free P (open_window store e) _ tt (writes_of-open_window store e) (λ _ _.
          after_free P (open_gates w pair store e.sequence) _ tt
            (writes_of-open_gates w pair store e.sequence)
            (λ u g.
              let left = gates_inv w pair store e.sequence u g in
              after_attempt (limit_of store) counts e.sequence (open_reserve w store e.sequence) _
                (journal-AtMost store counts c) (one_more store counts e.sequence c left)
                (writes_of-open_reserve w store e.sequence)
                (λ _ base b.
                  after_free (IsMetered (limit_of store) base) (expected_tag secret store d e) _ tt
                    (writes_of-expected_tag secret store d e)
                    (λ tag _. open_verify-IsMetered w secret store e tag counts base c b left))))))

pub retire-IsMetered :
    (d : Direction) (through : ℕ) (offset : Option ℕ) (reason : List ℕ) (w : Witness)
    (pair : LoadedPair) (counts : ℕ → ℕ)
    → IsCounted (half pair d) counts
    → IsMetered (limit_of (half pair d)) counts (writes_of (retire d through offset reason w pair))
unfolding retire IsMetered counts_after
retire-IsMetered d through offset reason w pair counts c =
    let store = half pair d in
    let P : List Write → Type 0 = IsMetered (limit_of store) counts in
    after_free P (witness_preflight store.head.rollback w store.effective) _ tt
      (writes_of-witness_preflight store.head.rollback w store.effective)
      (λ _ _. after_free P (check _ _) _ tt (writes_of-check _ _) (λ _ _.
        after_free P (check _ _) _ tt (writes_of-check _ _) (λ _ _.
          after_free P (retire_offset store offset) _ tt (writes_of-retire_offset store offset)
            (λ o _. subst P (sym (writes_of-retire_commit w store (through + 1) reason o)) (
              commit-IsMetered (limit_of store) counts (retired_head store o (through + 1))
                (retire_line (through + 1) o reason)
                (record {
                  limit_eq = refl;
                  counts_kept = λ k. let h = head-AtMost store counts c k in ground arith;
                })
                (journal-AtMost store counts c) refl)))))

pub clear_freeze_half-IsMetered :
    (store : LoadedStore) (counts : ℕ → ℕ)
    → IsCounted store counts
    → IsMetered (limit_of store) counts (clear_freeze_half store)
unfolding clear_freeze_half cleared_head IsMetered counts_after commit_advance
clear_freeze_half-IsMetered store counts c =
    elim (frozen_half store)
      as (λ b. IsMetered (limit_of store) counts (
        if b
        then commit_advance (cleared_head store) (clear_freeze_line store.effective.failure_count)
        else [])) [
          | true ↦ (
            record { limit_eq = refl; counts_kept = head-AtMost store counts c },
            (journal-AtMost store counts c, tt),
          )
          | false ↦ tt
        ]
