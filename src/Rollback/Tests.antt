-- ===== src/Rollback/Tests.antt =====
-- Two processes that record counters in one file, and a store that is put back afterwards.
use true_pad.Base.{ℕ, ◌≡◌, ◌≢◌, inl, refl, List, [], ◌∷◌, Option, none, some, arith, codes}
use true_pad.Store.Head.{separate_state_file}
use true_pad.Store.Load.{LoadedStore}
use true_pad.Store.Samples.{sample_head, sample_store, sample_secret}
use true_pad.Direction.{a_to_b}
use true_pad.Verbs.Witness.{WitnessCounters}
use true_pad.Verbs.Outcome.{proceed, refused, witness_regressed, check}
use true_pad.Verbs.Pair.{party_a, LoadedPair, half, direction_for, require_not_frozen, frozen_half}
use true_pad.Verbs.Burn.{burn}
use true_pad.Json.Tree.{value_of, count_members}
use true_pad.Rollback.{
  Entries, WitnessFile, entries_of, validate_witness_file, read_entries, entry_counters,
  entries_json, lookup_entry, key_of, regression_against, fell, set_entry, advance_entries,
  advance_locked, file_of,
}
use true_pad.Base.{true}
use true_pad.Rollback.Order.{IsKept, Records}
use true_pad.Rollback.Advance.{advance_locked-keeps}
use true_pad.Rollback.Processes.{
  Job, Place, waiting, holding, staged, written, done, gave_up, System, update, acquire, stage,
  write, release, time_out, Steps, none_yet, then_step,
}
use true_pad.Rollback.Serial.{AreJobs, Steps-keep}
use true_pad.Rollback.Restored.{file_witness, burn-restored}

abbrev counters : ℕ → WitnessCounters
counters n = record {
  encryption_next_offset = n;
  authentication_next_sequence = 1;
  attempts_reserved = 0;
}

abbrev sample_key : List ℕ
sample_key = key_of sample_head.pair_id a_to_b

abbrev before_file : Entries
before_file = record { key = codes "other/B->A"; counters = counters 9 } ∷ []

abbrev after_file : Entries
after_file =
    record { key = codes "other/B->A"; counters = counters 9 }
    ∷ record { key = sample_key; counters = counters 2 }
    ∷ []

advances :
    advance_locked (file_of before_file) sample_key (counters 2) (some before_file)
    ≡ some after_file
unfolding advance_locked entries_of file_of validate_witness_file value_of read_entries entries_json
    entry_counters count_members regression_against fell lookup_entry advance_entries set_entry
advances = refl

advance_locked-keeps_example :
    (found : Entries) × (entries_of (file_of before_file) ≡ some found)
    × IsKept before_file found
    × IsKept found after_file
    × Records after_file sample_key (counters 2)
    × ((other : List ℕ)
        → sample_key ≢ other
        → lookup_entry other after_file ≡ lookup_entry other found)
advance_locked-keeps_example =
    advance_locked-keeps (file_of before_file) sample_key (counters 2) before_file after_file
      advances

abbrev sample_jobs : ℕ → Job
sample_jobs n = record { key = sample_key; counters = counters 2; snapshot = some before_file }

sample-AreJobs : AreJobs sample_jobs
sample-AreJobs n = (refl, (omega arith, omega arith, omega arith))

abbrev sys : WitnessFile → Option ℕ → (ℕ → Place) → System
sys file lock at = record { file = file; lock = lock; at = at }

abbrev s0 : System
s0 = sys (file_of before_file) none (λ n. waiting)

-- Process 0 records its counters while process 1 meets its lock and gives up.
abbrev a1 : ℕ → Place
a1 = update 0 holding (λ n. waiting)

abbrev a2 : ℕ → Place
a2 = update 1 gave_up a1

abbrev a3 : ℕ → Place
a3 = update 0 (staged after_file) a2

abbrev a4 : ℕ → Place
a4 = update 0 written a3

abbrev a5 : ℕ → Place
a5 = update 0 done a4

abbrev s5 : System
s5 = sys (file_of after_file) none a5

sample-Steps : Steps sample_jobs s0 s5
sample-Steps =
    then_step (sys (file_of after_file) (some 0) a4) s5
      (then_step (sys (file_of before_file) (some 0) a3) (sys (file_of after_file) (some 0) a4)
        (then_step (sys (file_of before_file) (some 0) a2) (sys (file_of before_file) (some 0) a3)
          (then_step (sys (file_of before_file) (some 0) a1) (sys (file_of before_file) (some 0) a2)
            (then_step s0 (sys (file_of before_file) (some 0) a1) none_yet (acquire s0 0 refl refl))
            (time_out (sys (file_of before_file) (some 0) a1) 1 0 refl refl))
          (stage (sys (file_of before_file) (some 0) a2) 0 after_file refl advances))
        (write (sys (file_of before_file) (some 0) a3) 0 after_file refl))
      (release (sys (file_of after_file) (some 0) a4) 0 refl)

before-entries : entries_of s0.file ≡ some before_file
unfolding entries_of file_of validate_witness_file value_of read_entries entries_json entry_counters
    count_members
before-entries = refl

Steps-keep_example :
    (fs : Entries) × (entries_of s5.file ≡ some fs)
    × IsKept before_file fs
    × ((i : ℕ) → s5.at i ≡ done → Records fs (sample_jobs i).key (sample_jobs i).counters)
Steps-keep_example =
    Steps-keep sample_jobs before_file s0 s5 sample-AreJobs before-entries (λ i. refl) sample-Steps

-- The sample store, with this file as its witness.
abbrev watched_store : LoadedStore
watched_store = record {
  head = record sample_head { rollback = separate_state_file (codes "/w") };
  effective = sample_store.effective;
}

abbrev watched_pair : LoadedPair
watched_pair = record { ab = watched_store; ba = watched_store }

thawed : require_not_frozen watched_pair ≡ proceed
unfolding require_not_frozen check frozen_half
thawed = refl

burn-restored_example :
    burn party_a
      (1 ∷ [])
      (file_witness s5.file none true sample_head.pair_id a_to_b none)
      sample_secret
      watched_pair
    ≡ refused witness_regressed []
unfolding half direction_for
burn-restored_example =
    burn-restored sample_jobs before_file s0 s5 0 (codes "/w") true none party_a (1 ∷ [])
      sample_secret watched_pair sample-AreJobs before-entries (λ j. refl) sample-Steps refl refl
      (inl (omega arith)) refl thawed
