-- ===== src/Rollback/RoundTrip.antt =====
-- The witness's file holds the entries that were written to it.
use true_pad.Base.{
  ℕ, ◌≤◌, ◌≡◌, ◌⊎◌, inl, inr, refl, sym, ap, subst, ◌∙◌, true, false, List, [], ◌∷◌, Bool, Option,
  none, some, arith, All, ◌==◌, if◌then◌else◌, Bool-cases, codes, max_safe, same,
}
use true_pad.Verbs.Witness.{WitnessCounters}
use true_pad.Json.Tree.{
  string, flag, array, step, safe_count-count, safe_count-inv, Json, count, object, other, Members,
  no_members, member, value_of, count_members, safe_count,
}
use true_pad.Rollback.{
  Entry, Entries, entry_counters, read_entries, is_count_2, read_witness_member,
  validate_witness_file, WitnessFile, json, missing, unreadable, blank, not_json, entries_of,
  lookup_entry, set_entry, max_counters, previous, advance_entries, entry_json, entries_json,
  file_of, init_witness, init_existing,
}

abbrev pub is_proto : List ℕ → Bool
is_proto key = same key (codes "__proto__")

-- Counters that `JSON.stringify` writes as safe integers.
abbrev pub AreSafe : WitnessCounters → Type 0
AreSafe c =
    (c.encryption_next_offset ≤ max_safe)
    × (c.authentication_next_sequence ≤ max_safe)
    × (c.attempts_reserved ≤ max_safe)

abbrev pub IsStorable : Entries → Type 0
IsStorable = All (λ (e : Entry). (is_proto e.key ≡ false) × AreSafe e.counters)

entry_counters-entry_json :
    (c : WitnessCounters) → AreSafe c → entry_counters (entry_json c) ≡ some c
unfolding entry_counters value_of count_members
entry_counters-entry_json c (a, b, d) = rw (
  safe_count-count c.encryption_next_offset a,
  safe_count-count c.authentication_next_sequence b,
  safe_count-count c.attempts_reserved d,
)

read_entries-entries_json :
    (es : Entries) → IsStorable es → read_entries (entries_json es) ≡ some es
unfolding read_entries entries_json
read_entries-entries_json [] h = refl
read_entries-entries_json (e ∷ es) h =
    rw (entry_counters-entry_json e.counters h.0.1, read_entries-entries_json es h.1, h.0.0)

-- A read of the file that was written for some entries gives them back.
pub entries_of-file_of : (es : Entries) → IsStorable es → entries_of (file_of es) ≡ some es
unfolding entries_of file_of validate_witness_file value_of
entries_of-file_of es h = read_entries-entries_json es h

entry_counters-AreSafe : (v : Json) (c : WitnessCounters) → entry_counters v ≡ some c → AreSafe c
unfolding entry_counters
entry_counters-AreSafe (count n) c h = absurd (ground arith)
entry_counters-AreSafe (string u) c h = absurd (ground arith)
entry_counters-AreSafe (flag b) c h = absurd (ground arith)
entry_counters-AreSafe (array xs) c h = absurd (ground arith)
entry_counters-AreSafe other c h = absurd (ground arith)
entry_counters-AreSafe (object ms) c h =
    let (_, _, h0) = step (if count_members ms == 3 then some true else none) _ c h in
    let (x, ex, h1) = step (safe_count (value_of (codes "encryptionNextOffset") ms)) _ c h0 in
    let (y, ey, h2) = step (safe_count (value_of (codes "authenticationNextSequence") ms)) _ c h1 in
    let (z, ez, h3) = step (safe_count (value_of (codes "attemptsReserved") ms)) _ c h2 in
    let q : record {
      encryption_next_offset = x;
      authentication_next_sequence = y;
      attempts_reserved = z;
    }
        ≡ c =
      ap (previous) h3 in
    subst AreSafe q (
      safe_count-inv (value_of (codes "encryptionNextOffset") ms) x ex,
      safe_count-inv (value_of (codes "authenticationNextSequence") ms) y ey,
      safe_count-inv (value_of (codes "attemptsReserved") ms) z ez,
    )

some_entries : (xs ys : Entries) → some xs ≡ some ys → xs ≡ ys
some_entries xs ys h = ap (λ o. elim o [ some x ↦ x | none ↦ xs ]) h

abbrev kept : List ℕ → WitnessCounters → Entries → Bool → Option Entries
kept k c rest b = some (if b then rest else record { key = k; counters = c } ∷ rest)

read_entries-IsStorable : (ms : Members) (es : Entries) → read_entries ms ≡ some es → IsStorable es
unfolding read_entries
read_entries-IsStorable no_members es h = subst IsStorable (some_entries [] es h) tt
read_entries-IsStorable (member k v ms) es h =
    let (c, ec, h1) = step (entry_counters v) _ es h in
    let (rest, er, h2) = step (read_entries ms) _ es h1 in
    let r = read_entries-IsStorable ms rest er in
    elim (Bool-cases (is_proto k)) [
      | inl y ↦ subst IsStorable (some_entries rest es (ap (kept k c rest) (sym y) ∙ h2)) r
      | inr n ↦
          subst IsStorable
            (some_entries (record { key = k; counters = c } ∷ rest) es
              (ap (kept k c rest) (sym n) ∙ h2))
            ((n, entry_counters-AreSafe v c ec), r)
    ]

read_witness_member-IsStorable :
    (v : Option Json) (es : Entries) → read_witness_member v ≡ some es → IsStorable es
read_witness_member-IsStorable none es h = absurd (ground arith)
read_witness_member-IsStorable (some (count n)) es h = absurd (ground arith)
read_witness_member-IsStorable (some (string u)) es h = absurd (ground arith)
read_witness_member-IsStorable (some (flag b)) es h = absurd (ground arith)
read_witness_member-IsStorable (some (array xs)) es h = absurd (ground arith)
read_witness_member-IsStorable (some other) es h = absurd (ground arith)
read_witness_member-IsStorable (some (object ms)) es h = read_entries-IsStorable ms es h

validate-IsStorable : (v : Json) (es : Entries) → validate_witness_file v ≡ some es → IsStorable es
unfolding validate_witness_file
validate-IsStorable (count n) es h = absurd (ground arith)
validate-IsStorable (string u) es h = absurd (ground arith)
validate-IsStorable (flag b) es h = absurd (ground arith)
validate-IsStorable (array xs) es h = absurd (ground arith)
validate-IsStorable other es h = absurd (ground arith)
validate-IsStorable (object ms) es h =
    of_version (is_count_2 (value_of (codes "formatVersion") ms)) h
  where
    of_version :
        (b : Bool)
        → (if b then read_witness_member (value_of (codes "witness") ms) else none) ≡ some es
        → IsStorable es
    of_version true k = read_witness_member-IsStorable (value_of (codes "witness") ms) es k
    of_version false k = absurd (ground arith)

-- What a file with the shape holds can be stored.
pub entries_of-IsStorable :
    (file : WitnessFile) (es : Entries) → entries_of file ≡ some es → IsStorable es
unfolding entries_of
entries_of-IsStorable missing es h = absurd (ground arith)
entries_of-IsStorable unreadable es h = absurd (ground arith)
entries_of-IsStorable blank es h = absurd (ground arith)
entries_of-IsStorable not_json es h = absurd (ground arith)
entries_of-IsStorable (json v) es h = validate-IsStorable v es h

lookup-AreSafe :
    (key : List ℕ) (es : Entries) → IsStorable es → AreSafe (previous (lookup_entry key es))
unfolding lookup_entry
lookup-AreSafe key [] h = (omega arith, omega arith, omega arith)
lookup-AreSafe key (e ∷ es) h = elim (Bool-cases (same e.key key)) [
  | inl y ↦ rw (y) h.0.1
  | inr n ↦ rw (n) (lookup-AreSafe key es h.1)
]

set_entry-IsStorable :
    (key : List ℕ) (c : WitnessCounters) (es : Entries)
    → is_proto key ≡ false
    → AreSafe c
    → IsStorable es
    → IsStorable (set_entry key c es)
unfolding set_entry
set_entry-IsStorable key c [] p s h = ((p, s), tt)
set_entry-IsStorable key c (e ∷ es) p s h = elim (Bool-cases (same e.key key)) [
  | inl y ↦ rw (y) ((h.0.0, s), h.1)
  | inr n ↦ rw (n) (h.0, set_entry-IsStorable key c es p s h.1)
]

-- An update of entries that can be stored can be stored.
pub advance_entries-IsStorable :
    (key : List ℕ) (c : WitnessCounters) (es : Entries)
    → is_proto key ≡ false
    → AreSafe c
    → IsStorable es
    → IsStorable (advance_entries key c es)
unfolding advance_entries
advance_entries-IsStorable key c es p s h =
    let b = lookup-AreSafe key es h in
    set_entry-IsStorable key (max_counters (previous (lookup_entry key es)) c) es p
      (omega arith, omega arith, omega arith) h

-- A file that is there is left as it is by `initWitness`, and a new one has the shape and no entry.
pub init_witness-keeps :
    (file : WitnessFile)
    → ((file ≡ missing) × (entries_of (init_witness file).1 ≡ some []))
      ⊎ ((init_witness file).1 ≡ file)
unfolding init_witness
init_witness-keeps missing = inl (refl, entries_of-file_of [] tt)
init_witness-keeps unreadable = inr refl
init_witness-keeps blank = inr refl
init_witness-keeps not_json = inr refl
init_witness-keeps (json v) = inr (left_alone (validate_witness_file v))
  where
    left_alone : (o : Option Entries) → (init_existing o (json v)).1 ≡ json v
    left_alone none = refl
    left_alone (some []) = refl
    left_alone (some (e ∷ es)) = refl
