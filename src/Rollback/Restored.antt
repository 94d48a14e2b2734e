-- ===== src/Rollback/Restored.antt =====
-- A store that was put back to an earlier state, before the witness's file that remembers the later
-- one: `witnessPreflight` of src/cli/v2/truepad2.ts over src/cli/v2/witness.ts.
use true_pad.Base.{
  ℕ, ◌<◌, ◌≡◌, ◌⊎◌, inl, inr, refl, ap, subst, ◌∙◌, true, false, not, ◌&&◌, if◌then◌else◌, List, [],
  Bool, Option, none, some, arith, Bytes,
}
use true_pad.Direction.{Direction}
use true_pad.Store.Head.{separate_state_file}
use true_pad.Store.Load.{EffectiveState}
use true_pad.Verbs.Outcome.{
  ◌>>=◌, Reason, Outcome, refused, proceed, check, free_then, witness_unreachable, locked,
  witness_regressed,
}
use true_pad.Verbs.Pair.{Party, burning, direction_for, LoadedPair, half, require_not_frozen}
use true_pad.Verbs.Witness.{WitnessCounters, Witness, is_behind, compare_entry, witness_preflight}
use true_pad.Verbs.Burn.{burn}
use true_pad.Rollback.{
  Entries, WitnessFile, missing, unreadable, blank, not_json, json, entries_of, lookup_entry,
  key_of, of_shape, readable, read_witness_counters, advance_locked,
}
use true_pad.Rollback.Order.{IsCovered, Records}
use true_pad.Rollback.Processes.{Job, waiting, done, System, Steps}
use true_pad.Rollback.Serial.{AreJobs, Steps-keep}

abbrev is_written : Option Entries → Bool
is_written (some es) = true
is_written none = false

abbrev is_held : Option ℕ → Bool
is_held (some holder) = true
is_held none = false

-- The probes of the preflight that follow the read: the directory, then the lock.
abbrev pub probed :
    Bool → Option ℕ → Reason ⊎ Option WitnessCounters → Reason ⊎ Option WitnessCounters
probed writable lock (inl reason) = inl reason
probed writable lock (inr entry) =
    if not writable then inl witness_unreachable else if is_held lock then inl locked else inr entry

-- The witness of a verb, over the file and the lock beside it, where the path is safe: what it answers
-- at preflight, and whether the advance is written while the file and the lock are as they are.
abbrev pub file_witness :
    WitnessFile → Option ℕ → Bool → List ℕ → Direction → Option Entries → Witness
file_witness file lock writable pair_id direction snapshot = record {
  reading = probed writable lock (read_witness_counters file pair_id direction);
  advance = λ c.
      not (is_held lock)
      && writable
      && is_written (advance_locked file (key_of pair_id direction) c snapshot);
}

-- Why a burn on a restored store is refused.
abbrev pub restored_reason : Bool → Option ℕ → Reason
restored_reason writable lock =
    if not writable then witness_unreachable else if is_held lock then locked else witness_regressed

-- Some counter of the store is below the witness's.
abbrev pub IsBehind : EffectiveState → WitnessCounters → Type 0
IsBehind e c =
    (e.next_offset < c.encryption_next_offset)
    ⊎ ((e.next_sequence < c.authentication_next_sequence)
        ⊎ (e.attempts_reserved < c.attempts_reserved))

is_behind-IsBehind :
    (e : EffectiveState) (c d : WitnessCounters)
    → IsBehind e c
    → IsCovered c d
    → is_behind e d ≡ true
unfolding is_behind
is_behind-IsBehind e c d (inl h) k = ground arith
is_behind-IsBehind e c d (inr (inl h)) k = ground arith
is_behind-IsBehind e c d (inr (inr h)) k = ground arith

readable-entries :
    {A : Type 0} (file : WitnessFile) (f : Entries → A) (es : Entries)
    → entries_of file ≡ some es
    → readable file f ≡ inr (f es)
unfolding readable entries_of
readable-entries missing f es h = absurd (ground arith)
readable-entries unreadable f es h = absurd (ground arith)
readable-entries blank f es h = absurd (ground arith)
readable-entries not_json f es h = absurd (ground arith)
readable-entries (json v) f es h = ap (λ o. of_shape o f) h

compare-regressed :
    (e : EffectiveState) (c d : WitnessCounters)
    → IsBehind e c
    → IsCovered c d
    → compare_entry (inr (some d)) e ≡ refused witness_regressed []
unfolding compare_entry check
compare-regressed e c d h k = rw (is_behind-IsBehind e c d h k)

probed-regressed :
    (writable : Bool) (lock : Option ℕ) (e : EffectiveState) (c d : WitnessCounters)
    → IsBehind e c
    → IsCovered c d
    → compare_entry (probed writable lock (inr (some d))) e
      ≡ refused (restored_reason writable lock) []
unfolding compare_entry
probed-regressed false lock e c d h k = refl
probed-regressed true (some holder) e c d h k = refl
probed-regressed true none e c d h k = compare-regressed e c d h k

-- A store below what its entry in the file records is refused at preflight.
preflight-regressed :
    (path : List ℕ) (file : WitnessFile) (lock : Option ℕ) (writable : Bool) (id : List ℕ)
    (d : Direction) (snapshot : Option Entries) (es : Entries) (c : WitnessCounters)
    (e : EffectiveState)
    → entries_of file ≡ some es
    → Records es (key_of id d) c
    → IsBehind e c
    → witness_preflight (separate_state_file path) (file_witness file lock writable id d snapshot) e
      ≡ refused (restored_reason writable lock) []
unfolding witness_preflight read_witness_counters
preflight-regressed path file lock writable id d snapshot es c e q (x, ex, cx) b =
    ap (λ r. compare_entry (probed writable lock r) e)
      (readable-entries file (lookup_entry (key_of id d)) es q ∙ ap inr ex)
    ∙ probed-regressed writable lock e c x b cx

refused_then :
    {A B : Type 0} (o : Outcome A) (f : A → Outcome B) (r : Reason)
    → o ≡ refused r []
    → (o >>= f) ≡ refused r []
unfolding ◌>>=◌
refused_then o f r h = ap (λ x. x >>= f) h

-- A direction's store that was put back below what a finished update has recorded for it is refused by
-- `burn`, and nothing is written: as unreachable where the witness's directory cannot be written, else as
-- locked while a process holds the lock or has left it behind, else as regressed. This holds whatever the
-- processes on the witness's file have done in between, in whatever order, from a file with the shape and
-- with every process yet to begin. Keys and counters are such as the file can hold, the store's witness
-- is that file, its path is safe, and the pair is not frozen.
pub burn-restored :
    (jobs : ℕ → Job) (es : Entries) (s t : System) (i : ℕ) (path : List ℕ) (writable : Bool)
    (snapshot : Option Entries) (role : Party) (p secret : Bytes) (pair : LoadedPair)
    → AreJobs jobs
    → entries_of s.file ≡ some es
    → ((j : ℕ) → s.at j ≡ waiting)
    → Steps jobs s t
    → t.at i ≡ done
    → (jobs i).key
      ≡ key_of (half pair (direction_for role burning)).head.pair_id (direction_for role burning)
    → IsBehind (half pair (direction_for role burning)).effective (jobs i).counters
    → (half pair (direction_for role burning)).head.rollback ≡ separate_state_file path
    → require_not_frozen pair ≡ proceed
    → burn role p
        (file_witness t.file t.lock writable
          (half pair (direction_for role burning)).head.pair_id
          (direction_for role burning)
          snapshot)
        secret
        pair
      ≡ refused (restored_reason writable t.lock) []
unfolding burn
burn-restored jobs es s t i path writable snapshot role p secret pair fit q w steps finished key
      behind class thawed =
    let d = direction_for role burning in
    let store = half pair d in
    let wit = file_witness t.file t.lock writable store.head.pair_id d snapshot in
    let (fs, qf, _, recorded) = Steps-keep jobs es s t fit q w steps in
    let r = subst (λ k. Records fs k (jobs i).counters) key (recorded i finished) in
    free_then _ _ tt thawed
    ∙ refused_then _ _ (restored_reason writable t.lock) (
        ap (λ c. witness_preflight c wit store.effective) class
        ∙ preflight-regressed path t.file t.lock writable store.head.pair_id d snapshot fs
            (jobs i).counters store.effective qf r behind)
