-- ===== src/Rollback/Processes.antt =====
-- `advanceWitness` of src/cli/v2/witness.ts by any number of processes on one file, which the lock
-- beside the file serialises: `acquireWitnessLock`, the read, the atomic replacement, the release.
use true_pad.Base.{
  ℕ, ◌≡◌, ◌≢◌, sym, subst, ◌∙◌, false, List, Option, none, some, arith, ◌==◌, if◌then◌else◌,
}
use true_pad.Base.{ℕ_discrete, ==_iff}
use true_pad.Verbs.Witness.{WitnessCounters}
use true_pad.Rollback.{Entries, WitnessFile, entries_of, advance_entries, advance_locked, file_of}
use true_pad.Rollback.Order.{Records, IsKept, Records-IsKept}

-- What a process is to record.
pub record Job : Type 0 where
  pub key : List ℕ
  pub counters : WitnessCounters
  pub snapshot : Option Entries

-- Where a process stands; `staged` has read the file and not written yet.
pub data Place : Type 0 where
  waiting holding written done gave_up dead : Place
  staged : (entries : Entries) → Place

-- The lock file names the process that made it.
pub record System : Type 0 where
  pub file : WitnessFile
  pub lock : Option ℕ
  pub at : ℕ → Place

abbrev pub update : ℕ → Place → (ℕ → Place) → ℕ → Place
update i v f j = if i == j then v else f j

abbrev pub IsDone : Place → Type 0
IsDone done = Unit
IsDone _ = ⊥

-- The release, which removes only a lock that the process has made itself.
abbrev pub freed : ℕ → Option ℕ → Option ℕ
freed i none = none
freed i (some j) = if i == j then none else some j

-- One step of one process. A killed process leaves its lock behind, which the operator removes; a
-- process that meets a lock for too long, or cannot make one, gives up. An input or output error at any
-- point after that releases the lock: before the file is replaced, or after it, where the directory
-- cannot be synchronised.
pub data Step (jobs : ℕ → Job) : System → System → Type 0 where
  acquire :
      (s : System) (i : ℕ)
      → s.at i ≡ waiting
      → s.lock ≡ none
      → Step jobs s (record { file = s.file; lock = some i; at = update i holding s.at })
  stage :
      (s : System) (i : ℕ) (es : Entries)
      → s.at i ≡ holding
      → advance_locked s.file (jobs i).key (jobs i).counters (jobs i).snapshot ≡ some es
      → Step jobs s (record { file = s.file; lock = s.lock; at = update i (staged es) s.at })
  refuse :
      (s : System) (i : ℕ)
      → s.at i ≡ holding
      → advance_locked s.file (jobs i).key (jobs i).counters (jobs i).snapshot ≡ none
      → Step jobs s (record { file = s.file; lock = freed i s.lock; at = update i gave_up s.at })
  write :
      (s : System) (i : ℕ) (es : Entries)
      → s.at i ≡ staged es
      → Step jobs s (record { file = file_of es; lock = s.lock; at = update i written s.at })
  release :
      (s : System) (i : ℕ)
      → s.at i ≡ written
      → Step jobs s (record { file = s.file; lock = freed i s.lock; at = update i done s.at })
  fail_locking :
      (s : System) (i : ℕ)
      → s.at i ≡ waiting
      → Step jobs s (record { file = s.file; lock = s.lock; at = update i gave_up s.at })
  fail_reading :
      (s : System) (i : ℕ)
      → s.at i ≡ holding
      → Step jobs s (record { file = s.file; lock = freed i s.lock; at = update i gave_up s.at })
  fail_writing :
      (s : System) (i : ℕ) (es : Entries)
      → s.at i ≡ staged es
      → Step jobs s (record { file = s.file; lock = freed i s.lock; at = update i gave_up s.at })
  fail_syncing :
      (s : System) (i : ℕ)
      → s.at i ≡ written
      → Step jobs s (record { file = s.file; lock = freed i s.lock; at = update i gave_up s.at })
  time_out :
      (s : System) (i j : ℕ)
      → s.at i ≡ waiting
      → s.lock ≡ some j
      → Step jobs s (record { file = s.file; lock = s.lock; at = update i gave_up s.at })
  kill :
      (s : System) (i : ℕ)
      → Step jobs s (record { file = s.file; lock = s.lock; at = update i dead s.at })
  clear_lock :
      (s : System) (i : ℕ)
      → s.at i ≡ dead
      → s.lock ≡ some i
      → Step jobs s (record { file = s.file; lock = none; at = s.at })

pub data Steps (jobs : ℕ → Job) (s : System) : System → Type 0 where
  none_yet : Steps jobs s s
  then_step : (t u : System) → Steps jobs s t → Step jobs t u → Steps jobs s u

-- What holds of a process at its place, where the file has these entries.
abbrev pub IsAt : (jobs : ℕ → Job) → Entries → Option ℕ → ℕ → Place → Type 0
IsAt jobs es lock i waiting = Unit
IsAt jobs es lock i holding = lock ≡ some i
IsAt jobs es lock i (staged fs) =
    (lock ≡ some i) × (advance_entries (jobs i).key (jobs i).counters es ≡ fs)
IsAt jobs es lock i written = (lock ≡ some i) × Records es (jobs i).key (jobs i).counters
IsAt jobs es lock i done = Records es (jobs i).key (jobs i).counters
IsAt jobs es lock i gave_up = Unit
IsAt jobs es lock i dead = Unit

unfoldable pub IsSerial : (jobs : ℕ → Job) → Entries → System → Type 0
IsSerial jobs es s = (entries_of s.file ≡ some es) × ((i : ℕ) → IsAt jobs es s.lock i (s.at i))

pub at_update :
    (P : ℕ → Place → Type 0) (f : ℕ → Place) (i : ℕ) (v : Place)
    → P i v
    → ((j : ℕ) → i ≢ j → P j (f j))
    → (j : ℕ) → P j (update i v f j)
at_update P f i v h k j = elim (ℕ_discrete i j) [
  | yes e ↦
      subst (λ b. P j (if b then v else f j)) (sym ((==_iff i j).1 e)) (subst (λ x. P x v) e h)
  | no n ↦
      let b : (i == j) ≡ false = ground arith in
      subst (λ b. P j (if b then v else f j)) (sym b) (k j n)
]

-- A process without the lock is not disturbed by what the holder does.
pub not_holder :
    (jobs : ℕ → Job) (es fs : Entries) (lock lock' : Option ℕ) (j : ℕ) (l : Place)
    → lock ≢ some j
    → IsKept es fs
    → IsAt jobs es lock j l
    → IsAt jobs fs lock' j l
not_holder jobs es fs lock lock' j waiting n k h = tt
not_holder jobs es fs lock lock' j holding n k h = absurd (n h)
not_holder jobs es fs lock lock' j (staged gs) n k h = absurd (n h.0)
not_holder jobs es fs lock lock' j written n k h = absurd (n h.0)
not_holder jobs es fs lock lock' j done n k h =
    Records-IsKept es fs (jobs j).key (jobs j).counters h k
not_holder jobs es fs lock lock' j gave_up n k h = tt
not_holder jobs es fs lock lock' j dead n k h = tt

pub some_apart : (lock : Option ℕ) (i j : ℕ) → lock ≡ some i → i ≢ j → lock ≢ some j
some_apart lock i j h n k = n (some_number (sym h ∙ k))
  where
    some_number : some i ≡ some j → i ≡ j
    some_number q = ground arith
