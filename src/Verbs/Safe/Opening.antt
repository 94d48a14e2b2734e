-- ===== src/Verbs/Safe/Opening.antt =====
-- The writes of `open` of src/cli/v2/truepad2.ts may be cut off anywhere.
use true_pad.Verbs.Safe.Failing.{open_fail-IsSafe}
use true_pad.Verbs.Safe.Parts.{
  writes_of-decoded_envelope, writes_of-open_structural, writes_of-open_window,
  writes_of-open_gates, writes_of-expected_tag, writes_of-unframed, open_window_inv,
  writes_of-open_reserve, advance_writes,
}
use true_pad.Store.Head.{HeadV2}
use true_pad.Store.Journal.{take_record, raise_marks, attempt_line}
use true_pad.Store.Load.{LoadedStore}
use true_pad.Store.Write.{Write, journal_line, commit_advance, is_safe_record}
use true_pad.Store.Safe.{failures_after, IsCovered, IsSafe, commit-IsSafe}
use true_pad.Verbs.Outcome.{
  Reason, Outcome, refused, failed, released, attempt, ◌>>=◌, writes_of, after_free,
  writes_of-attempt, writes_of-before,
}
use true_pad.Verbs.Pair.{Party, opening, direction_for, LoadedPair, half}
use true_pad.Verbs.Witness.{Witness}
use true_pad.Envelope.{EnvelopeV2}
use true_pad.Base.Xor.{xor_bytes}
use true_pad.Tag.{tags_equal}
use true_pad.Verbs.Open.{
  decoded_envelope, open_structural, open_window, open_gates, open_fail, opened_head, opened_line,
  opened_counters, attempts_above, unframed, open_pass, open_reserve, expected_tag, open_verify,
  open_envelope,
}
use true_pad.Verbs.Safe.{IsLoaded, advanced_head-valid, loaded-HasCapacities}
use true_pad.Base.{
  ℕ, ◌+◌, ◌≤◌, ◌<◌, ◌≡◌, ◌⊎◌, inl, inr, refl, sym, ap, subst, ◌∙◌, true, false, List, [], ◌∷◌, ◌++◌,
  arith, Bytes, max_safe,
}

attempt_line-IsCovered : (head : HeadV2) (n : ℕ) → n ≤ max_safe → IsCovered head (attempt_line n)
unfolding take_record is_safe_record
attempt_line-IsCovered head n small = record {
  line_safe = ground arith;
  sequence_covered = omega arith;
  offset_covered = omega arith;
}

-- A part that writes the line of one attempt.
after_one :
    {A B : Type 0} (bound count : ℕ) (head : HeadV2) (n : ℕ) (o : Outcome A) (f : A → Outcome B)
    → count ≤ bound
    → n ≤ max_safe
    → writes_of o ≡ journal_line (attempt_line n) ∷ []
    → ((a : A) → IsSafe bound count head (writes_of (f a)))
    → IsSafe bound count head (writes_of (o >>= f))
unfolding IsSafe ◌>>=◌ writes_of failures_after
after_one bound count head n (refused r ws) f c small e k =
    subst (IsSafe bound count head) (sym e) (attempt_line-IsCovered head n small, c, tt)
after_one bound count head n (failed ws) f c small e k =
    subst (IsSafe bound count head) (sym e) (attempt_line-IsCovered head n small, c, tt)
after_one bound count head n (released a ws) f c small e k =
    subst (IsSafe bound count head)
      (sym (writes_of-before ws (f a) ∙ ap (λ v. v ++ writes_of (f a)) e))
      (attempt_line-IsCovered head n small, c, k a)

-- The same, where the line may be missing.
after_line :
    {A B : Type 0} (bound count : ℕ) (head : HeadV2) (n : ℕ) (o : Outcome A) (f : A → Outcome B)
    → count ≤ bound
    → n ≤ max_safe
    → (writes_of o ≡ []) ⊎ (writes_of o ≡ journal_line (attempt_line n) ∷ [])
    → ((a : A) → IsSafe bound count head (writes_of (f a)))
    → IsSafe bound count head (writes_of (o >>= f))
unfolding IsSafe
after_line bound count head n o f c small (inl e) k =
    after_free (IsSafe bound count head) o f tt e (λ a _. k a)
after_line bound count head n o f c small (inr e) k = after_one bound count head n o f c small e k

opened_line-safe :
    (store : LoadedStore) (e : EnvelopeV2)
    → IsLoaded store
    → e.sequence < store.head.authentication.capacity_records
    → e.start_offset + e.ciphertext_length ≤ store.head.encryption.capacity
    → is_safe_record (opened_line store e) ≡ true
unfolding is_safe_record
opened_line-safe store e l r t =
    let k = loaded-HasCapacities store l in
    let a = k.bytes_fit in let b = k.records_fit in ground arith

opened-IsSafe :
    (store : LoadedStore) (e : EnvelopeV2)
    → IsLoaded store
    → store.effective.next_sequence ≤ e.sequence
    → store.effective.next_offset ≤ e.start_offset
    → e.sequence < store.head.authentication.capacity_records
    → e.start_offset + e.ciphertext_length ≤ store.head.encryption.capacity
    → IsSafe
        (store.effective.failure_count + 1)
        store.effective.failure_count
        store.head
        (commit_advance (opened_head store e) (opened_line store e))
unfolding take_record raise_marks failures_after
opened-IsSafe store e l p q r t =
    let s = l.sequence_eq in
    let o = l.offset_eq in
    commit-IsSafe (store.effective.failure_count + 1) store.effective.failure_count store.head
      (opened_head store e) (opened_line store e)
      (record {
        same_capacity = refl;
        same_records = refl;
        sequence_up = omega arith;
        offset_up = omega arith;
      })
      (advanced_head-valid store.head (e.start_offset + e.ciphertext_length) (e.sequence + 1)
        (attempts_above e.sequence store.head.verification.per_sequence_attempts) l.head_valid t
        (omega arith))
      (omega (arith, l.failures_le))
      (record {
        line_safe = opened_line-safe store e l r t;
        sequence_covered = omega arith;
        offset_covered = omega arith;
      })
      (omega arith)

open_pass-IsSafe :
    (w : Witness) (secret : Bytes) (store : LoadedStore) (e : EnvelopeV2)
    → IsLoaded store
    → store.effective.next_sequence ≤ e.sequence
    → store.effective.next_offset ≤ e.start_offset
    → e.sequence < store.head.authentication.capacity_records
    → e.start_offset + e.ciphertext_length ≤ store.head.encryption.capacity
    → IsSafe
        (store.effective.failure_count + 1)
        store.effective.failure_count
        store.head
        (writes_of (open_pass w secret store e))
unfolding open_pass IsSafe
open_pass-IsSafe w secret store e l p q r t =
    after_free (IsSafe (store.effective.failure_count + 1) store.effective.failure_count store.head)
      (attempt _) _ tt (writes_of-attempt _)
      (λ pad _.
        subst (IsSafe (store.effective.failure_count + 1) store.effective.failure_count store.head)
          (sym (
            advance_writes store w (opened_counters store e)
              (commit_advance (opened_head store e) (opened_line store e))
              (unframed store.head.record_policy (xor_bytes e.ciphertext pad))
              (writes_of-unframed store.head.record_policy _)))
          (opened-IsSafe store e l p q r t))

open_verify-IsSafe :
    (w : Witness) (secret : Bytes) (store : LoadedStore) (e : EnvelopeV2) (tag : Bytes)
    → IsLoaded store
    → store.effective.failure_count < max_safe
    → store.effective.next_sequence ≤ e.sequence
    → store.effective.next_offset ≤ e.start_offset
    → e.sequence < store.head.authentication.capacity_records
    → e.start_offset + e.ciphertext_length ≤ store.head.encryption.capacity
    → IsSafe
        (store.effective.failure_count + 1)
        store.effective.failure_count
        store.head
        (writes_of (open_verify w secret store e tag))
unfolding open_verify
open_verify-IsSafe w secret store e tag l b p q r t =
    elim (tags_equal tag e.tag)
      as (λ v. IsSafe (store.effective.failure_count + 1) store.effective.failure_count store.head (
        writes_of
          (elim v [ true ↦ open_pass w secret store e | false ↦ open_fail store e.sequence ]))) [
            | true ↦ open_pass-IsSafe w secret store e l p q r t
            | false ↦
                open_fail-IsSafe store e.sequence l b
                  (let k = (loaded-HasCapacities store l).records_fit in omega arith)
          ]

-- Whatever `open` ends with, on a loaded store with fewer failures than the largest safe integer: each
-- header that it writes passes the validation of a load, keeps the capacity in bytes and that in records
-- and moves neither the next sequence nor the next offset back, and each journal line has safe integers
-- and no marks above these two counters of the header before it. At most one more failure is counted.
pub open_envelope-IsSafe :
    (role : Party) (decoded : Reason ⊎ EnvelopeV2) (w : Witness) (secret : Bytes)
    (pair : LoadedPair)
    → IsLoaded (half pair (direction_for role opening))
    → (half pair (direction_for role opening)).effective.failure_count < max_safe
    → IsSafe
        ((half pair (direction_for role opening)).effective.failure_count + 1)
        (half pair (direction_for role opening)).effective.failure_count
        (half pair (direction_for role opening)).head
        (writes_of (open_envelope role decoded w secret pair))
unfolding open_envelope IsSafe
open_envelope-IsSafe role decoded w secret pair l b =
    let d = direction_for role opening in
    let store = half pair d in
    let P : List Write → Type 0 =
      IsSafe (store.effective.failure_count + 1) store.effective.failure_count store.head in
    after_free P (decoded_envelope decoded) _ tt (writes_of-decoded_envelope decoded) (λ e _.
      after_free P (open_structural store d e) _ tt (writes_of-open_structural store d e) (λ _ _.
        after_free P (open_window store e) _ tt (writes_of-open_window store e) (λ u h.
          let (p, r, _, q, t) = open_window_inv store e u [] h in
          after_free P (open_gates w pair store e.sequence) _ tt
            (writes_of-open_gates w pair store e.sequence)
            (λ _ _.
              after_line (store.effective.failure_count + 1) store.effective.failure_count
                store.head e.sequence (open_reserve w store e.sequence) _ (omega arith)
                (let k = (loaded-HasCapacities store l).records_fit in omega arith)
                (writes_of-open_reserve w store e.sequence)
                (λ _.
                  after_free P (expected_tag secret store d e) _ tt
                    (writes_of-expected_tag secret store d e)
                    (λ tag _. open_verify-IsSafe w secret store e tag l b p q r t))))))
