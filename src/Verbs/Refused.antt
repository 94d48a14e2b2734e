-- ===== src/Verbs/Refused.antt =====
-- "Nothing was burned": what the refusals of src/cli/v2/truepad2.ts cost.
use true_pad.Direction.{Direction}
use true_pad.Store.Head.{
  Rollback, no_witness, separate_state_file, platform_monotonic, remote_monotonic,
}
use true_pad.Store.Write.{Write, commit_advance}
use true_pad.Store.Journal.{retire_line}
use true_pad.Verbs.Outcome.{
  Reason, Outcome, refused, failed, released, before, check, durable, ◌>>=◌, before_none, writes_of,
  writes_of-check,
}
use true_pad.Verbs.Pair.{Party, burning, direction_for, LoadedPair, half, require_not_frozen}
use true_pad.Verbs.Witness.{
  Witness, WitnessCounters, witness_preflight, witness_advance, writes_of-witness_preflight,
}
use true_pad.Verbs.Burn.{
  burn_payload, burn_checks, burn_staged, burn_commit, burn, sent_head, sent_line, sent_counters,
}
use true_pad.Verbs.Operator.{retire_offset, retired_head, retired_counters, retire_commit, retire}
use true_pad.Verbs.Safe.{
  writes_of-require_not_frozen, writes_of-burn_payload, writes_of-burn_checks,
  writes_of-burn_staged,
}
use true_pad.Verbs.Safe.Retiring.{writes_of-retire_offset}
use true_pad.Base.{ℕ, ◌+◌, ◌≡◌, sym, ap, ◌∙◌, List, [], Option, arith, Bytes, length}

-- An outcome whose refusal, if it is one, has written nothing.
unfoldable pub IsFree : {A : Type 0} → Outcome A → Type 0
IsFree o = (reason : Reason) (ws : List Write) → o ≡ refused reason ws → ws ≡ []

bind-IsFree :
    {A B : Type 0} (o : Outcome A) (f : A → Outcome B)
    → writes_of o ≡ []
    → ((a : A) → IsFree (f a))
    → IsFree (o >>= f)
unfolding IsFree ◌>>=◌ writes_of
bind-IsFree (refused r vs) f e k reason ws h = let q : vs ≡ ws = ground arith in sym q ∙ e
bind-IsFree (failed vs) f e k reason ws h = ground arith
bind-IsFree (released a vs) f e k reason ws h =
    k a reason ws (sym (ap (λ v. before v (f a)) e ∙ before_none (f a)) ∙ h)

-- After the durable commit a verb fails or gives its result, and refuses nothing.
commit-IsFree :
    {A : Type 0} (ws : List Write) (r : Rollback) (w : Witness) (c : WitnessCounters) (a : A)
    → IsFree (durable ws >>= λ _. witness_advance r w c >>= λ _. released a [])
unfolding IsFree ◌>>=◌ before witness_advance
commit-IsFree ws no_witness w c a reason vs h = ground arith
commit-IsFree ws remote_monotonic w c a reason vs h = ground arith
commit-IsFree ws (separate_state_file _) w c a reason vs h = ground arith
commit-IsFree ws platform_monotonic w c a reason vs h = ground arith

burn-IsFree :
    (role : Party) (p : Bytes) (w : Witness) (secret : Bytes) (pair : LoadedPair)
    → IsFree (burn role p w secret pair)
unfolding burn burn_commit
burn-IsFree role p w secret pair =
    let d = direction_for role burning in
    let store = half pair d in
    bind-IsFree (require_not_frozen pair) _ (writes_of-require_not_frozen pair) (λ _.
      bind-IsFree (witness_preflight _ _ _) _ (writes_of-witness_preflight _ _ _) (λ _.
        bind-IsFree (burn_payload _ p) _ (writes_of-burn_payload _ p) (λ payload.
          bind-IsFree (burn_checks store (length payload)) _
            (writes_of-burn_checks store (length payload))
            (λ _.
              bind-IsFree (burn_staged secret store d payload) _
                (writes_of-burn_staged secret store d payload)
                (λ e.
                  commit-IsFree
                    (commit_advance (sent_head store (length payload))
                      (sent_line store (length payload)))
                    store.head.rollback w (sent_counters store (length payload)) e)))))

retire-IsFree :
    (d : Direction) (through : ℕ) (offset : Option ℕ) (reason : List ℕ) (w : Witness)
    (pair : LoadedPair)
    → IsFree (retire d through offset reason w pair)
unfolding retire retire_commit
retire-IsFree d through offset reason w pair =
    let store = half pair d in
    bind-IsFree (witness_preflight _ _ _) _ (writes_of-witness_preflight _ _ _) (λ _.
      bind-IsFree (check _ _) _ (writes_of-check _ _) (λ _.
        bind-IsFree (check _ _) _ (writes_of-check _ _) (λ _.
          bind-IsFree (retire_offset store offset) _ (writes_of-retire_offset store offset) (λ o.
            commit-IsFree
              (commit_advance (retired_head store o (through + 1))
                (retire_line (through + 1) o reason))
              store.head.rollback w (retired_counters store o (through + 1)) (through + 1, o)))))

-- A burn that is refused, for whatever reason, has written nothing.
pub burn_refused :
    (role : Party) (p : Bytes) (w : Witness) (secret : Bytes) (pair : LoadedPair) (reason : Reason)
    (ws : List Write)
    → burn role p w secret pair ≡ refused reason ws
    → ws ≡ []
unfolding IsFree
burn_refused role p w secret pair reason ws h = burn-IsFree role p w secret pair reason ws h

-- A retirement that is refused, for whatever reason, has written nothing.
pub retire_refused :
    (d : Direction) (through : ℕ) (offset : Option ℕ) (note : List ℕ) (w : Witness)
    (pair : LoadedPair) (reason : Reason) (ws : List Write)
    → retire d through offset note w pair ≡ refused reason ws
    → ws ≡ []
unfolding IsFree
retire_refused d through offset note w pair reason ws h =
    retire-IsFree d through offset note w pair reason ws h
