-- ===== src/Verbs/Safe/Parts.antt =====
-- What the parts of `open` of src/cli/v2/truepad2.ts write, and what its window checks let through.
use true_pad.Direction.{Direction}
use true_pad.Frame.{parse_frame}
use true_pad.Store.Head.{RecordSpec, variable, fixed}
use true_pad.Store.Journal.{attempt_line, auth_fail_line}
use true_pad.Store.Load.{LoadedStore}
use true_pad.Store.Write.{
  Write, journal_line, head_file, reserve_attempt, persist_auth_fail, failed_head,
}
use true_pad.Verbs.Outcome.{
  Reason, Outcome, released, check, attempt, durable, ◌>>=◌, before, writes_of, writes_of-bind,
  writes_of-check, writes_of-attempt, writes_of-before, check-released, check_then_inv,
}
use true_pad.Verbs.Pair.{LoadedPair, require_not_frozen}
use true_pad.Verbs.Witness.{
  Witness, WitnessCounters, witness_preflight, witness_advance, writes_of-witness_preflight,
  writes_of-witness_advance,
}
use true_pad.Envelope.{EnvelopeV2}
use true_pad.Verbs.Burn.{pair_id_of}
use true_pad.Verbs.Open.{
  decoded_envelope, open_structural, open_window, open_gates, fail_head, unframed,
  reserved_counters, open_reserve, expected_tag,
}
use true_pad.Verbs.Safe.{writes_of-require_not_frozen, writes_of-pair_id_of}
use true_pad.Base.{
  ℕ, ◌+◌, ◌≤◌, ◌<◌, ◌≡◌, ◌⊎◌, inl, inr, refl, ap, ◌∙◌, List, [], ◌∷◌, ◌++◌, some, arith, Bytes, ltb,
  Bool-cases, max_safe, append-nil,
}

pub writes_of-decoded_envelope : (r : Reason ⊎ EnvelopeV2) → writes_of (decoded_envelope r) ≡ []
unfolding decoded_envelope writes_of
writes_of-decoded_envelope (inl r) = refl
writes_of-decoded_envelope (inr e) = refl

pub writes_of-open_structural :
    (store : LoadedStore) (d : Direction) (e : EnvelopeV2)
    → writes_of (open_structural store d e) ≡ []
unfolding open_structural
writes_of-open_structural store d e =
    writes_of-bind (check _ _) _ (writes_of-check _ _)
      (λ _. writes_of-bind (check _ _) _ (writes_of-check _ _) (λ _. writes_of-check _ _))

pub writes_of-open_window :
    (store : LoadedStore) (e : EnvelopeV2) → writes_of (open_window store e) ≡ []
unfolding open_window
writes_of-open_window store e = writes_of-bind (check _ _) _ (writes_of-check _ _) (λ _.
    writes_of-bind (check _ _) _ (writes_of-check _ _) (λ _.
      writes_of-bind (check _ _) _ (writes_of-check _ _)
        (λ _. writes_of-bind (check _ _) _ (writes_of-check _ _) (λ _. writes_of-check _ _))))

pub writes_of-open_gates :
    (w : Witness) (pair : LoadedPair) (store : LoadedStore) (n : ℕ)
    → writes_of (open_gates w pair store n) ≡ []
unfolding open_gates
writes_of-open_gates w pair store n =
    writes_of-bind (require_not_frozen pair) _ (writes_of-require_not_frozen pair) (λ _.
      writes_of-bind (witness_preflight _ _ _) _ (writes_of-witness_preflight _ _ _)
        (λ _. writes_of-check _ _))

pub writes_of-expected_tag :
    (secret : Bytes) (store : LoadedStore) (d : Direction) (e : EnvelopeV2)
    → writes_of (expected_tag secret store d e) ≡ []
unfolding expected_tag
writes_of-expected_tag secret store d e = writes_of-bind (attempt _) _ (writes_of-attempt _) (λ _.
    writes_of-bind (pair_id_of store.head) _ (writes_of-pair_id_of store.head)
      (λ _. writes_of-attempt _))

pub writes_of-unframed : (r : RecordSpec) (p : Bytes) → writes_of (unframed r p) ≡ []
unfolding unframed writes_of
writes_of-unframed variable p = refl
writes_of-unframed (fixed bytes) p = writes_of-attempt (parse_frame p)

-- What the window checks have let through.
pub open_window_inv :
    (store : LoadedStore) (e : EnvelopeV2) (u : Unit) (ws : List Write)
    → open_window store e ≡ released u ws
    → (store.effective.next_sequence ≤ e.sequence)
      × (e.sequence < store.head.authentication.capacity_records)
      × (e.sequence < store.effective.next_sequence + store.head.authentication.max_auth_lookahead)
      × (store.effective.next_offset ≤ e.start_offset)
      × (e.start_offset + e.ciphertext_length ≤ store.head.encryption.capacity)
unfolding open_window
open_window_inv store e u ws h =
    let (a, h1) = check_then_inv _ _ _ u ws h in
    let (b, h2) = check_then_inv _ _ _ u ws h1 in
    let (c, h3) = check_then_inv _ _ _ u ws h2 in
    let (d, h4) = check_then_inv _ _ _ u ws h3 in
    let f = check-released _ _ ws h4 in
    (ground arith, ground arith, ground arith, ground arith, ground arith)

pub writes_of-open_reserve :
    (w : Witness) (store : LoadedStore) (n : ℕ)
    → (writes_of (open_reserve w store n) ≡ [])
      ⊎ (writes_of (open_reserve w store n) ≡ journal_line (attempt_line n) ∷ [])
unfolding open_reserve reserve_attempt attempt ◌>>=◌ writes_of before
writes_of-open_reserve w store n =
    let c = reserved_counters store in
    let line = journal_line (attempt_line n) ∷ [] in
    elim (Bool-cases (ltb max_safe n)) [
      | inl t ↦ inl (rw t refl)
      | inr f ↦ inr (
          rw f (
            writes_of-before [] (before line (witness_advance store.head.rollback w c))
            ∙ writes_of-before line (witness_advance store.head.rollback w c)
            ∙ ap (λ v. line ++ v) (writes_of-witness_advance store.head.rollback w c)))
    ]

abbrev pub fail_writes : LoadedStore → ℕ → List Write
fail_writes store n =
    journal_line (auth_fail_line n (store.effective.failure_count + 1))
    ∷ head_file (failed_head (fail_head store n) n)
    ∷ []

pub persist_auth_fail_inv :
    (store : LoadedStore) (n : ℕ) (ws : List Write)
    → persist_auth_fail (fail_head store n) n ≡ some ws
    → fail_writes store n ≡ ws
unfolding persist_auth_fail fail_head failed_head
persist_auth_fail_inv store n ws h = ground arith

pub durable_refused :
    {A : Type 0} (ws : List Write) (f : Unit → Outcome A)
    → writes_of (f tt) ≡ []
    → writes_of (durable ws >>= f) ≡ ws
unfolding ◌>>=◌
durable_refused ws f e = writes_of-before ws (f tt) ∙ ap (λ v. ws ++ v) e ∙ append-nil ws

pub advance_writes :
    (store : LoadedStore) (w : Witness) (c : WitnessCounters) (ws : List Write)
    (rest : Outcome Bytes)
    → writes_of rest ≡ []
    → writes_of (durable ws >>= λ _. witness_advance store.head.rollback w c >>= λ _. rest) ≡ ws
unfolding ◌>>=◌
advance_writes store w c ws rest e =
    writes_of-before ws (witness_advance store.head.rollback w c >>= λ _. rest)
    ∙ ap (λ v. ws ++ v)
        (writes_of-bind (witness_advance store.head.rollback w c) _
          (writes_of-witness_advance store.head.rollback w c) (λ _. e))
    ∙ append-nil ws
