-- ===== src/Rollback/Advance.antt =====
-- `advanceWitness` of src/cli/v2/witness.ts by any number of processes on one file, which the lock
-- beside the file serialises.
use true_pad.Base.{
  ℕ, ◌≡◌, ◌≢◌, inl, inr, refl, sym, ap, subst, ◌∙◌, true, false, List, Bool, Option, none, some,
  arith, if◌then◌else◌, ◌>>=◌, Option-cases,
}
use true_pad.Verbs.Witness.{WitnessCounters}
use true_pad.Rollback.{
  Entries, WitnessFile, entries_of, lookup_entry, has_regressed, max_counters, previous,
  advance_entries, advance_locked,
}
use true_pad.Rollback.Order.{
  Records, IsKept, lookup-set_other, advance_entries-Records, advance_entries-IsKept,
  regression_against-IsKept,
}

-- What an update that is not refused has found and gives.
pub record IsAdvance (file : WitnessFile) (key : List ℕ) (c : WitnessCounters)
    (snapshot : Option Entries) (es : Entries) : Type 0 where
  pub found : Entries
  pub read : entries_of file ≡ some found
  pub updated : advance_entries key c found ≡ es
  pub not_regressed : has_regressed snapshot found ≡ false

pub advance_locked_inv :
    (file : WitnessFile) (key : List ℕ) (c : WitnessCounters) (snapshot : Option Entries)
    (es : Entries)
    → advance_locked file key c snapshot ≡ some es
    → IsAdvance file key c snapshot es
unfolding advance_locked
advance_locked_inv file key c snapshot es h = elim (Option-cases (entries_of file)) [
  | inl n ↦ absurd (none_first (entries_of file) n h)
  | inr (fs, q) ↦
      let k =
        ap
          (λ o.
            o >>= λ x. if has_regressed snapshot x then none else some (advance_entries key c x))
          (sym q)
        ∙ h in
      let (a, b) = not_refused (has_regressed snapshot fs) (advance_entries key c fs) k in
      record { found = fs; read = q; updated = b; not_regressed = a }
]
  where
    none_first :
        (o : Option Entries)
        → o ≡ none
        → (o >>= λ x. if has_regressed snapshot x then none else some (advance_entries key c x))
          ≢ some es
    none_first none q k = ground arith
    none_first (some x) q k = ground arith

    not_refused :
        (b : Bool) (x : Entries) → (if b then none else some x) ≡ some es → (b ≡ false) × (x ≡ es)
    not_refused true x k = absurd (ground arith)
    not_refused false x k = (refl, ap (λ o. elim o [ some y ↦ y | none ↦ x ]) k)

-- An update that is not refused loses no entry and lets none go back, covers the counters it was given,
-- leaves the entries of the other keys as they were, and has found every entry of the snapshot there
-- and not gone back.
pub advance_locked-keeps :
    (file : WitnessFile) (key : List ℕ) (c : WitnessCounters) (snapshot es : Entries)
    → advance_locked file key c (some snapshot) ≡ some es
    → (found : Entries) × (entries_of file ≡ some found)
      × IsKept snapshot found
      × IsKept found es
      × Records es key c
      × ((other : List ℕ) → key ≢ other → lookup_entry other es ≡ lookup_entry other found)
unfolding advance_entries
advance_locked-keeps file key c snapshot es h =
    let a = advance_locked_inv file key c (some snapshot) es h in
    (
      a.found,
      a.read,
      regression_against-IsKept snapshot a.found a.not_regressed,
      subst (IsKept a.found) a.updated
          (unfold advance_entries in advance_entries-IsKept key c a.found),
      subst (λ x. Records x key c) a.updated (advance_entries-Records key c a.found),
      λ o ne.
          ap (lookup_entry o) (sym a.updated)
          ∙ lookup-set_other key o (max_counters (previous (lookup_entry key a.found)) c) a.found
              ne,
    )
