-- ===== src/Verbs/Safe.antt =====
-- Which writes the verbs of src/cli/v2/truepad2.ts make: those before a commit are none, and those
-- of a verb may be cut off anywhere.
pub mod Parts
pub mod Failing
pub mod Opening
pub mod Retiring
use true_pad.Codec.Hex.{hex_to_bytes}
use true_pad.Direction.{Direction}
use true_pad.Frame.{frame_capacity, build_frame}
use true_pad.Store.Head.{HeadV2, RecordSpec, variable, fixed}
use true_pad.Store.Journal.{
  take_record, raise_marks, no_aggregates, JournalRecord, attempt_line, auth_fail_line,
}
use true_pad.Store.Load.{LoadedStore, read_auth_record, read_encryption, secret_length}
use true_pad.Store.Write.{
  Write, journal_line, head_file, reserve_attempt, persist_auth_fail, failed_head, commit_advance,
  is_safe_record,
}
use true_pad.Store.Valid.{
  has_fixed_domains, is_valid_head, HasCapacities, has_fixed_domains-HasCapacities,
  is_valid_head_inv, is_valid_head_lem,
}
use true_pad.Store.Safe.{
  failures_after, IsForward, IsCovered, IsSafe, IsForward-refl, commit-IsSafe,
}
use true_pad.Verbs.Outcome.{
  Reason, Outcome, refused, failed, released, proceed, check, attempt, durable, ◌>>=◌, before,
  writes_of, after_free, writes_of-bind, writes_of-check, writes_of-attempt, writes_of-before,
  attempt-released, check-released, check_then_inv, corrupt_head,
}
use true_pad.Verbs.Pair.{
  Party, burning, opening, direction_for, LoadedPair, half, require_not_frozen, frozen_half,
}
use true_pad.Verbs.Witness.{
  Witness, WitnessCounters, witness_preflight, witness_advance, writes_of-witness_preflight,
  writes_of-witness_advance,
}
use true_pad.Verbs.Burn
use true_pad.Envelope.{EnvelopeV2}
use true_pad.Verbs.Burn.{
  burn_payload, valid_pair_id, pair_id_of, burn_checks, burn_staged, burn_commit, burn,
  advanced_head, sent_head, sent_line, sent_counters,
}
use true_pad.Base.{
  ℕ, zero, suc, ◌+◌, ◌-◌, ◌*◌, ◌/◌, ◌%◌, ◌^◌, ◌≤◌, ◌<◌, ◌≡◌, ◌≢◌, ◌↔◌, ◌⊎◌, inl, inr, refl, sym, ap,
  ap₂, subst, ◌∙◌, bit_and, bit_or, bit_xor, true, false, not, ◌&&◌, ◌||◌, List, [], ◌∷◌, ◌++◌,
  Bool, Option, none, some, arith, Bytes, IsByte, IsBytes, All, length, take, drop, replicate,
  get_elem?, get_or, ◌==◌, ltb, leb, if◌then◌else◌, min, max, Bool-cases, Option-cases, codes,
  max_safe, same, append-nil, append_assoc, map,
}

-- The counters of a loaded store are its header's, which passes the validation of a load; its failures
-- are no fewer than the header's.
pub record IsLoaded (store : LoadedStore) : Type 0 where
  pub sequence_eq : store.effective.next_sequence ≡ store.head.authentication.next_sequence
  pub offset_eq : store.effective.next_offset ≡ store.head.encryption.next_offset
  pub head_valid : is_valid_head store.head ≡ true
  pub failures_le : store.head.verification.failure_count ≤ store.effective.failure_count

pub writes_of-require_not_frozen : (pair : LoadedPair) → writes_of (require_not_frozen pair) ≡ []
unfolding require_not_frozen
writes_of-require_not_frozen pair = writes_of-check _ _

pub writes_of-burn_payload : (r : RecordSpec) (p : Bytes) → writes_of (burn_payload r p) ≡ []
unfolding burn_payload writes_of
writes_of-burn_payload variable p = refl
writes_of-burn_payload (fixed bytes) p =
    writes_of-bind (check _ _) _ (writes_of-check _ _)
      (λ _. writes_of-attempt (build_frame p bytes))

writes_of-valid_pair_id : (o : Option Bytes) → writes_of (valid_pair_id o) ≡ []
unfolding valid_pair_id writes_of
writes_of-valid_pair_id none = refl
writes_of-valid_pair_id (some bytes) =
    elim (length bytes == 16)
      as (λ b. writes_of (if b then released bytes [] else refused corrupt_head []) ≡ []) [
        | true ↦ refl
        | false ↦ refl
      ]

pub writes_of-pair_id_of : (head : HeadV2) → writes_of (pair_id_of head) ≡ []
unfolding pair_id_of
writes_of-pair_id_of head = writes_of-valid_pair_id (hex_to_bytes head.pair_id)

pub writes_of-burn_checks : (store : LoadedStore) (c : ℕ) → writes_of (burn_checks store c) ≡ []
unfolding burn_checks
writes_of-burn_checks store c =
    writes_of-bind (check _ _) _ (writes_of-check _ _)
      (λ _. writes_of-bind (check _ _) _ (writes_of-check _ _) (λ _. writes_of-check _ _))

-- What the window checks of `burn` have let through.
pub burn_checks_inv :
    (store : LoadedStore) (c : ℕ) (u : Unit)
    → burn_checks store c ≡ released u []
    → (c ≤ store.head.authentication.max_ciphertext)
      × (store.effective.next_sequence < store.head.authentication.capacity_records)
      × (store.effective.next_offset + c ≤ store.head.encryption.capacity)
unfolding burn_checks
burn_checks_inv store c u h =
    let (a, h1) = check_then_inv _ _ _ u [] h in
    let (b, h2) = check_then_inv _ _ _ u [] h1 in
    let d = check-released _ _ [] h2 in (ground arith, ground arith, ground arith)

pub writes_of-burn_staged :
    (secret : Bytes) (store : LoadedStore) (d : Direction) (p : Bytes)
    → writes_of (burn_staged secret store d p) ≡ []
unfolding burn_staged writes_of
writes_of-burn_staged secret store d p = writes_of-bind (attempt _) _ (writes_of-attempt _) (λ _.
    writes_of-bind (attempt _) _ (writes_of-attempt _) (λ _.
      writes_of-bind (pair_id_of store.head) _ (writes_of-pair_id_of store.head)
        (λ _. writes_of-bind (attempt _) _ (writes_of-attempt _) (λ _. refl))))

-- A header that differs from a valid one in its two counters, within the budgets, and in the counts of
-- attempts.
pub advanced_head-valid :
    (head : HeadV2) (offset sequence : ℕ) (attempts : ℕ → ℕ)
    → is_valid_head head ≡ true
    → offset ≤ head.encryption.capacity
    → sequence ≤ head.authentication.capacity_records
    → is_valid_head (advanced_head head offset sequence attempts) ≡ true
unfolding has_fixed_domains
advanced_head-valid head offset sequence attempts v p q =
    let (f, c) = is_valid_head_inv head v in
    is_valid_head_lem (advanced_head head offset sequence attempts) f (record {
      offset_fits = p;
      sequence_fits = q;
      failures_fit = c.failures_fit;
      cleared_fits = c.cleared_fits;
    })

-- The capacities of a loaded store are safe integers.
pub loaded-HasCapacities : (store : LoadedStore) → IsLoaded store → HasCapacities store.head
loaded-HasCapacities store l =
    has_fixed_domains-HasCapacities store.head (is_valid_head_inv store.head l.head_valid).0

sent_line-safe :
    (store : LoadedStore) (c : ℕ)
    → IsLoaded store
    → store.effective.next_sequence < store.head.authentication.capacity_records
    → store.effective.next_offset + c ≤ store.head.encryption.capacity
    → is_safe_record (sent_line store c) ≡ true
unfolding is_safe_record
sent_line-safe store c l p q =
    let k = loaded-HasCapacities store l in
    let a = k.bytes_fit in let b = k.records_fit in ground arith

pub sent-IsSafe :
    (bound : ℕ) (store : LoadedStore) (c : ℕ)
    → IsLoaded store
    → store.effective.failure_count ≤ bound
    → store.effective.next_sequence < store.head.authentication.capacity_records
    → store.effective.next_offset + c ≤ store.head.encryption.capacity
    → IsSafe bound store.effective.failure_count store.head
        (commit_advance (sent_head store c) (sent_line store c))
unfolding take_record raise_marks failures_after
sent-IsSafe bound store c l few p q =
    let s = l.sequence_eq in
    let o = l.offset_eq in
    commit-IsSafe bound store.effective.failure_count store.head (sent_head store c)
      (sent_line store c)
      (record {
        same_capacity = refl;
        same_records = refl;
        sequence_up = omega arith;
        offset_up = omega arith;
      })
      (advanced_head-valid store.head (store.effective.next_offset + c)
        (store.effective.next_sequence + 1) store.head.verification.per_sequence_attempts
        l.head_valid q (omega arith))
      (omega (arith, l.failures_le))
      (record {
        line_safe = sent_line-safe store c l p q;
        sequence_covered = omega arith;
        offset_covered = omega arith;
      })
      few

pub writes_of-burn_commit :
    (w : Witness) (store : LoadedStore) (c : ℕ) (e : EnvelopeV2)
    → writes_of (burn_commit w store c e) ≡ commit_advance (sent_head store c) (sent_line store c)
unfolding burn_commit ◌>>=◌ writes_of
writes_of-burn_commit w store c e =
    writes_of-before (commit_advance (sent_head store c) (sent_line store c))
      (witness_advance store.head.rollback w (sent_counters store c) >>= λ _. released e [])
    ∙ ap (λ v. commit_advance (sent_head store c) (sent_line store c) ++ v)
        (writes_of-bind (witness_advance store.head.rollback w (sent_counters store c)) _
          (writes_of-witness_advance store.head.rollback w (sent_counters store c)) (λ _. refl))
    ∙ append-nil _

-- Whatever `burn` ends with, on a loaded store: each header that it writes passes the validation of a
-- load, keeps both budgets and moves neither the next sequence nor the next offset back, and each
-- journal line has safe integers and no marks above the header before it. No more failures are counted than a bound that
-- the store keeps to.
pub burn-IsSafe :
    (bound : ℕ) (role : Party) (p : Bytes) (w : Witness) (secret : Bytes) (pair : LoadedPair)
    → IsLoaded (half pair (direction_for role burning))
    → (half pair (direction_for role burning)).effective.failure_count ≤ bound
    → IsSafe bound
        (half pair (direction_for role burning)).effective.failure_count
        (half pair (direction_for role burning)).head
        (writes_of (burn role p w secret pair))
unfolding burn IsSafe
burn-IsSafe bound role p w secret pair l few =
    let d = direction_for role burning in
    let store = half pair d in
    let P : List Write → Type 0 = IsSafe bound store.effective.failure_count store.head in
    after_free P (require_not_frozen pair) _ tt (writes_of-require_not_frozen pair) (λ _ _.
      after_free P (witness_preflight store.head.rollback w store.effective) _ tt
        (writes_of-witness_preflight store.head.rollback w store.effective)
        (λ _ _.
          after_free P (burn_payload store.head.record_policy p) _ tt
            (writes_of-burn_payload store.head.record_policy p)
            (λ payload _.
              after_free P (burn_checks store (length payload)) _ tt
                (writes_of-burn_checks store (length payload))
                (λ u k.
                  let (_, p', q') = burn_checks_inv store (length payload) u k in
                  after_free P (burn_staged secret store d payload) _ tt
                    (writes_of-burn_staged secret store d payload)
                    (λ e _.
                      subst P (sym (writes_of-burn_commit w store (length payload) e))
                        (sent-IsSafe bound store (length payload) l few p' q'))))))
