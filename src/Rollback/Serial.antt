-- ===== src/Rollback/Serial.antt =====
-- No order of the steps of concurrent updates loses an entry of the witness's file or lets one go back.
use true_pad.Base.{ℕ, ◌≡◌, ◌≢◌, refl, sym, ap, subst, ◌∙◌, false, Option, none, some, arith}
use true_pad.Base.{ℕ_discrete}
use true_pad.Rollback.{Entries, WitnessFile, entries_of, advance_entries, file_of}
use true_pad.Rollback.Order.{
  Records, IsKept, IsKept-refl, IsKept-trans, advance_entries-Records, advance_entries-IsKept,
}
use true_pad.Rollback.RoundTrip.{
  is_proto, AreSafe, IsStorable, entries_of-file_of, entries_of-IsStorable,
  advance_entries-IsStorable,
}
use true_pad.Rollback.Advance.{advance_locked_inv}
use true_pad.Rollback.Processes.{
  Job, Place, waiting, holding, staged, written, done, gave_up, dead, System, update, Step, acquire,
  stage, refuse, write, release, freed, fail_locking, fail_reading, fail_writing, fail_syncing,
  time_out, kill, clear_lock, Steps, none_yet, then_step, IsAt, IsSerial, at_update, not_holder,
  some_apart,
}

-- Keys and counters that the file can hold.
abbrev pub AreJobs : (ℕ → Job) → Type 0
AreJobs jobs = (i : ℕ) → (is_proto (jobs i).key ≡ false) × AreSafe (jobs i).counters

some_found : (a b : Entries) → some a ≡ some b → a ≡ b
some_found a b h = ap (λ o. elim o [ some x ↦ x | none ↦ a ]) h

module _ (jobs : ℕ → Job) (fit : AreJobs jobs) where
  at_place :
      (es : Entries) (s : System) (i : ℕ) (l : Place)
      → IsSerial jobs es s
      → s.at i ≡ l
      → IsAt jobs es s.lock i l
  unfolding IsSerial
  at_place es s i l h q = subst (IsAt jobs es s.lock i) q (h.1 i)

  -- A step of the process that holds the lock, which keeps the entries.
  holder_moves :
      (es fs : Entries) (s : System) (file : WitnessFile) (lock' : Option ℕ) (i : ℕ) (l : Place)
      → IsSerial jobs es s
      → s.lock ≡ some i
      → IsKept es fs
      → entries_of file ≡ some fs
      → IsAt jobs fs lock' i l
      → IsSerial jobs fs (record { file = file; lock = lock'; at = update i l s.at })
  unfolding IsSerial
  holder_moves es fs s file lock' i l h k kept q a = (
    q,
    at_update (IsAt jobs fs lock') s.at i l a (λ j n.
        not_holder jobs es fs s.lock lock' j (s.at j) (some_apart s.lock i j k n) kept (h.1 j)),
  )

  -- A step that leaves the file and the lock as they are.
  bystander_moves :
      (es : Entries) (s : System) (i : ℕ) (l : Place)
      → IsSerial jobs es s
      → IsAt jobs es s.lock i l
      → IsSerial jobs es (record { file = s.file; lock = s.lock; at = update i l s.at })
  unfolding IsSerial
  bystander_moves es s i l h a = (h.0, at_update (IsAt jobs es s.lock) s.at i l a (λ j n. h.1 j))

  has_entries : (es : Entries) (s : System) → IsSerial jobs es s → entries_of s.file ≡ some es
  unfolding IsSerial
  has_entries es s h = h.0

  free : (lock : Option ℕ) (j : ℕ) → lock ≡ none → lock ≢ some j
  free lock j h k = none_apart (sym h ∙ k)
    where
      none_apart : none ≢ some j
      none_apart q = ground arith

  Step-IsSerial :
      (es : Entries) (s t : System)
      → IsSerial jobs es s
      → Step jobs s t
      → (fs : Entries) × IsKept es fs × IsSerial jobs fs t
  Step-IsSerial es _ _ h (acquire s i w q) = (
    es,
    IsKept-refl es,
    unfold IsSerial in
        (
          h.0,
          at_update (IsAt jobs es (some i)) s.at i holding refl (λ j n.
              not_holder jobs es es s.lock (some i) j (s.at j) (free s.lock j q) (IsKept-refl es)
                (h.1 j)),
        ),
  )
  Step-IsSerial es _ _ h (stage s i fs w a) =
      let v = advance_locked_inv s.file (jobs i).key (jobs i).counters (jobs i).snapshot fs a in
      (
        es,
        IsKept-refl es,
        bystander_moves es s i (staged fs) h (
          at_place es s i holding h w,
          ap (advance_entries (jobs i).key (jobs i).counters)
                (some_found es v.found (sym (has_entries es s h) ∙ v.read))
              ∙ v.updated,
        ),
      )
  Step-IsSerial es _ _ h (refuse s i w a) = (
    es,
    IsKept-refl es,
    holder_moves es es s s.file (freed i s.lock) i gave_up h (at_place es s i holding h w)
        (IsKept-refl es) (has_entries es s h) tt,
  )
  Step-IsSerial es _ _ h (write s i fs w) =
      let (k, q) = at_place es s i (staged fs) h w in
      let key = (jobs i).key in
      let c = (jobs i).counters in
      let kept = subst (IsKept es) q (advance_entries-IsKept key c es) in
      let storable = entries_of-IsStorable s.file es (has_entries es s h) in
      let stored =
        entries_of-file_of fs
          (subst IsStorable q (advance_entries-IsStorable key c es (fit i).0 (fit i).1 storable)) in
      (
        fs,
        kept,
        holder_moves es fs s (file_of fs) s.lock i written h k kept stored
            (k, subst (λ x. Records x key c) q (advance_entries-Records key c es)),
      )
  Step-IsSerial es _ _ h (release s i w) =
      let (k, r) = at_place es s i written h w in
      (
        es,
        IsKept-refl es,
        holder_moves es es s s.file (freed i s.lock) i done h k (IsKept-refl es)
            (has_entries es s h) r,
      )
  Step-IsSerial es _ _ h (fail_locking s i w) =
      (es, IsKept-refl es, bystander_moves es s i gave_up h tt)
  Step-IsSerial es _ _ h (fail_reading s i w) = (
    es,
    IsKept-refl es,
    holder_moves es es s s.file (freed i s.lock) i gave_up h (at_place es s i holding h w)
        (IsKept-refl es) (has_entries es s h) tt,
  )
  Step-IsSerial es _ _ h (fail_writing s i fs w) = (
    es,
    IsKept-refl es,
    holder_moves es es s s.file (freed i s.lock) i gave_up h (at_place es s i (staged fs) h w).0
        (IsKept-refl es) (has_entries es s h) tt,
  )
  Step-IsSerial es _ _ h (fail_syncing s i w) = (
    es,
    IsKept-refl es,
    holder_moves es es s s.file (freed i s.lock) i gave_up h (at_place es s i written h w).0
        (IsKept-refl es) (has_entries es s h) tt,
  )
  Step-IsSerial es _ _ h (time_out s i j w q) =
      (es, IsKept-refl es, bystander_moves es s i gave_up h tt)
  Step-IsSerial es _ _ h (kill s i) = (es, IsKept-refl es, bystander_moves es s i dead h tt)
  Step-IsSerial es _ _ h (clear_lock s i w q) =
      (es, IsKept-refl es, unfold IsSerial in (h.0, cleared))
    where
      cleared : (j : ℕ) → IsAt jobs es none j (s.at j)
      cleared j = elim (ℕ_discrete i j) [
        | yes e ↦
            let d : s.at j ≡ dead = ap s.at (sym e) ∙ w in subst (IsAt jobs es none j) (sym d) tt
        | no n ↦
            not_holder jobs es es s.lock none j (s.at j) (some_apart s.lock i j q n)
              (IsKept-refl es) (unfold IsSerial in h.1 j)
      ]

  Steps-IsSerial :
      (es : Entries) (s t : System)
      → IsSerial jobs es s
      → Steps jobs s t
      → (fs : Entries) × IsKept es fs × IsSerial jobs fs t
  Steps-IsSerial es s _ h none_yet = (es, IsKept-refl es, h)
  Steps-IsSerial es s _ h (then_step t u before last) =
      let (fs, k, a) = Steps-IsSerial es s t h before in
      let (gs, l, b) = Step-IsSerial fs t u a last in (gs, IsKept-trans es fs gs k l, b)

  started :
      (es : Entries) (s : System)
      → entries_of s.file ≡ some es
      → ((i : ℕ) → s.at i ≡ waiting)
      → IsSerial jobs es s
  unfolding IsSerial
  started es s q w = (q, λ i. subst (IsAt jobs es s.lock i) (sym (w i)) tt)

-- From a file with the shape, and with every process yet to begin, whatever order the processes take
-- their steps in, whichever of them are killed, fail, give up or are refused, and whenever a dead one's
-- lock is removed: the file has the shape, no entry is lost or has gone back, and it covers the
-- counters of every update that is done. Keys and counters are such as the file can hold.
pub Steps-keep :
    (jobs : ℕ → Job) (es : Entries) (s t : System)
    → AreJobs jobs
    → entries_of s.file ≡ some es
    → ((i : ℕ) → s.at i ≡ waiting)
    → Steps jobs s t
    → (fs : Entries) × (entries_of t.file ≡ some fs)
      × IsKept es fs
      × ((i : ℕ) → t.at i ≡ done → Records fs (jobs i).key (jobs i).counters)
Steps-keep jobs es s t fit q w h =
    let (fs, k, a) = Steps-IsSerial jobs fit es s t (started jobs fit es s q w) h in
    (fs, has_entries jobs fit fs t a, k, λ i d. at_place jobs fit fs t i done a d)
