-- ===== src/Verbs/Witness.antt =====
-- The rollback witness at a verb's two touchpoints, src/cli/v2/truepad2.ts. What the witness's
-- file or authority answers is an argument: a refusal or the pair's entry, and whether an advance is
-- written.
use true_pad.Store.Head.{
  Rollback, no_witness, separate_state_file, platform_monotonic, remote_monotonic,
}
use true_pad.Store.Load.{EffectiveState}
use true_pad.Verbs.Outcome.{
  Reason, Outcome, writes_of, writes_of-check, refused, failed, check, proceed, witness_unsupported,
  witness_regressed,
}
use true_pad.Base.{
  ℕ, ◌≡◌, ◌⊎◌, inl, inr, refl, true, false, ◌||◌, [], Bool, Option, none, some, ltb, if◌then◌else◌,
}

pub record WitnessCounters : Type 0 where
  pub encryption_next_offset : ℕ
  pub authentication_next_sequence : ℕ
  pub attempts_reserved : ℕ

-- An entry that is `none` is a fresh witness.
pub record Witness : Type 0 where
  pub reading : Reason ⊎ Option WitnessCounters
  pub advance : WitnessCounters → Bool

unfoldable pub is_behind : EffectiveState → WitnessCounters → Bool
is_behind e c =
    ltb e.next_offset c.encryption_next_offset
    || ltb e.next_sequence c.authentication_next_sequence
    || ltb e.attempts_reserved c.attempts_reserved

unfoldable pub compare_entry : Reason ⊎ Option WitnessCounters → EffectiveState → Outcome Unit
compare_entry (inl reason) e = refused reason []
compare_entry (inr none) e = proceed
compare_entry (inr (some counters)) e = check (is_behind e counters) witness_regressed

unfoldable pub witness_preflight : Rollback → Witness → EffectiveState → Outcome Unit
witness_preflight no_witness w e = proceed
witness_preflight remote_monotonic w e = refused witness_unsupported []
witness_preflight (separate_state_file _) w e = compare_entry w.reading e
witness_preflight platform_monotonic w e = compare_entry w.reading e

-- An advance that fails is a plain error after the durable commit.
unfoldable pub witness_advance : Rollback → Witness → WitnessCounters → Outcome Unit
witness_advance no_witness w c = proceed
witness_advance remote_monotonic w c = proceed
witness_advance (separate_state_file _) w c = if w.advance c then proceed else failed []
witness_advance platform_monotonic w c = if w.advance c then proceed else failed []

writes_of-compare_entry :
    (r : Reason ⊎ Option WitnessCounters) (e : EffectiveState) → writes_of (compare_entry r e) ≡ []
unfolding compare_entry writes_of
writes_of-compare_entry (inl reason) e = refl
writes_of-compare_entry (inr none) e = refl
writes_of-compare_entry (inr (some c)) e = writes_of-check (is_behind e c) witness_regressed

pub writes_of-witness_preflight :
    (r : Rollback) (w : Witness) (e : EffectiveState) → writes_of (witness_preflight r w e) ≡ []
unfolding witness_preflight writes_of
writes_of-witness_preflight no_witness w e = refl
writes_of-witness_preflight remote_monotonic w e = refl
writes_of-witness_preflight (separate_state_file _) w e = writes_of-compare_entry w.reading e
writes_of-witness_preflight platform_monotonic w e = writes_of-compare_entry w.reading e

pub writes_of-witness_advance :
    (r : Rollback) (w : Witness) (c : WitnessCounters) → writes_of (witness_advance r w c) ≡ []
unfolding witness_advance writes_of
writes_of-witness_advance no_witness w c = refl
writes_of-witness_advance remote_monotonic w c = refl
writes_of-witness_advance (separate_state_file _) w c =
    elim (w.advance c) as (λ b. writes_of (if b then proceed else failed []) ≡ []) [
      | true ↦ refl
      | false ↦ refl
    ]
writes_of-witness_advance platform_monotonic w c =
    elim (w.advance c) as (λ b. writes_of (if b then proceed else failed []) ≡ []) [
      | true ↦ refl
      | false ↦ refl
    ]
