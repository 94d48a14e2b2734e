-- ===== src/Rollback/Order.antt =====
-- What an update of the witness's entries keeps: no entry goes back or is lost.
use true_pad.Base.{
  ℕ, ◌≤◌, ◌≡◌, ◌≢◌, inl, inr, refl, sym, ap, subst, ◌∙◌, true, false, ◌||◌, List, [], ◌∷◌, Bool,
  Option, none, some, arith, if◌then◌else◌, Bool-cases, same,
}
use true_pad.Base.{same-eq, same_self}
use true_pad.Verbs.Witness.{WitnessCounters}
use true_pad.Rollback.{
  Entries, lookup_entry, fell, regression_against, set_entry, max_counters, previous,
  advance_entries,
}

-- None of the three counters is above the other's.
abbrev pub IsCovered : WitnessCounters → WitnessCounters → Type 0
IsCovered a b =
    (a.encryption_next_offset ≤ b.encryption_next_offset)
    × (a.authentication_next_sequence ≤ b.authentication_next_sequence)
    × (a.attempts_reserved ≤ b.attempts_reserved)

pub IsCovered-trans : (a b c : WitnessCounters) → IsCovered a b → IsCovered b c → IsCovered a c
IsCovered-trans a b c h k = (omega arith, omega arith, omega arith)

pub IsCovered-max_left : (a b : WitnessCounters) → IsCovered a (max_counters a b)
IsCovered-max_left a b = (omega arith, omega arith, omega arith)

pub IsCovered-max_right : (a b : WitnessCounters) → IsCovered b (max_counters a b)
IsCovered-max_right a b = (omega arith, omega arith, omega arith)

-- The entries hold the key, with counters that cover these.
abbrev pub Records : Entries → List ℕ → WitnessCounters → Type 0
Records es key c = (d : WitnessCounters) × (lookup_entry key es ≡ some d) × IsCovered c d

-- Every entry of the first is in the second, and has not gone back.
abbrev pub IsKept : Entries → Entries → Type 0
IsKept es fs =
    (key : List ℕ) (c : WitnessCounters) → lookup_entry key es ≡ some c → Records fs key c

pub IsKept-refl : (es : Entries) → IsKept es es
IsKept-refl es key c h = (c, h, (omega arith, omega arith, omega arith))

pub IsKept-trans : (es fs gs : Entries) → IsKept es fs → IsKept fs gs → IsKept es gs
IsKept-trans es fs gs h k key c e =
    let (d, ed, cd) = h key c e in
    let (x, ex, dx) = k key d ed in (x, ex, IsCovered-trans c d x cd dx)

pub Records-IsKept :
    (es fs : Entries) (key : List ℕ) (c : WitnessCounters)
    → Records es key c
    → IsKept es fs
    → Records fs key c
Records-IsKept es fs key c (d, ed, cd) k =
    let (x, ex, dx) = k key d ed in (x, ex, IsCovered-trans c d x cd dx)

pub lookup-set :
    (key : List ℕ) (c : WitnessCounters) (es : Entries)
    → lookup_entry key (set_entry key c es) ≡ some c
unfolding lookup_entry set_entry
lookup-set key c [] = rw (same_self key)
lookup-set key c (e ∷ es) = elim (Bool-cases (same e.key key)) [
  | inl y ↦ rw (y, y)
  | inr n ↦ rw (n, n) (lookup-set key c es)
]

-- An assignment to one key leaves the others.
pub lookup-set_other :
    (key other : List ℕ) (c : WitnessCounters) (es : Entries)
    → key ≢ other
    → lookup_entry other (set_entry key c es) ≡ lookup_entry other es
unfolding lookup_entry set_entry
lookup-set_other key other c [] ne = elim (Bool-cases (same key other)) [
  | inl y ↦ absurd (ne (same-eq key other y))
  | inr n ↦ rw (n)
]
lookup-set_other key other c (e ∷ es) ne = elim (Bool-cases (same e.key key)) [
  | inl y ↦ let q : same e.key other ≡ false = differs e.key (same-eq e.key key y) in rw (y, q)
  | inr n ↦ rw (n) (
      ap (λ r. if same e.key other then some e.counters else r)
        (lookup-set_other key other c es ne))
]
  where
    differs : (k : List ℕ) → k ≡ key → same k other ≡ false
    differs k q = elim (Bool-cases (same k other)) [
      | inl y ↦ absurd (ne (sym q ∙ same-eq k other y))
      | inr n ↦ n
    ]

-- After an update the key's entry covers the counters of the update.
pub advance_entries-Records :
    (key : List ℕ) (c : WitnessCounters) (es : Entries) → Records (advance_entries key c es) key c
unfolding advance_entries
advance_entries-Records key c es =
    let p = previous (lookup_entry key es) in
    (max_counters p c, lookup-set key (max_counters p c) es, IsCovered-max_right p c)

pub advance_entries-IsKept :
    (key : List ℕ) (c : WitnessCounters) (es : Entries) → IsKept es (advance_entries key c es)
unfolding advance_entries
advance_entries-IsKept key c es k d h =
    let p = previous (lookup_entry key es) in
    elim (Bool-cases (same key k)) [
      | inl y ↦
          let q = same-eq key k y in
          let pd : p ≡ d = ap previous (ap (λ x. lookup_entry x es) q ∙ h) in
          (
            max_counters p c,
            subst
                (λ x.
                  lookup_entry x (set_entry key (max_counters p c) es) ≡ some (max_counters p c))
                q (lookup-set key (max_counters p c) es),
            subst (λ x. IsCovered x (max_counters p c)) pd (IsCovered-max_left p c),
          )
      | inr n ↦ (
        d,
        lookup-set_other key k (max_counters p c) es (apart n) ∙ h,
        (omega arith, omega arith, omega arith),
      )
    ]
  where
    apart : same key k ≡ false → key ≢ k
    apart n q =
        let y : same key k ≡ true = ap (λ x. same key x) (sym q) ∙ same_self key in
        absurd (ground arith)

fell-Records :
    (was : WitnessCounters) (now : Option WitnessCounters)
    → fell was now ≡ false
    → (d : WitnessCounters) × (now ≡ some d) × IsCovered was d
unfolding fell
fell-Records was none h = absurd (ground arith)
fell-Records was (some d) h = (d, refl, (ground arith, ground arith, ground arith))

or_false : (a b : Bool) → (a || b) ≡ false → (a ≡ false) × (b ≡ false)
or_false a b h = (ground arith, ground arith)

-- A file that passes the comparison with a snapshot has kept the snapshot's entries.
pub regression_against-IsKept :
    (es current : Entries) → regression_against es current ≡ false → IsKept es current
unfolding regression_against lookup_entry
regression_against-IsKept [] current h key c e = absurd (ground arith)
regression_against-IsKept (x ∷ es) current h key c e =
    let (f, r) =
      or_false (fell x.counters (lookup_entry x.key current)) (regression_against es current) h in
    elim (Bool-cases (same x.key key)) [
      | inl y ↦
          let (d, ed, cd) = fell-Records x.counters (lookup_entry x.key current) f in
          let q : x.counters ≡ c = some_if (same x.key key) y e in
          (
            d,
            ap (λ k. lookup_entry k current) (sym (same-eq x.key key y)) ∙ ed,
            subst (λ w. IsCovered w d) q cd,
          )
      | inr n ↦ regression_against-IsKept es current r key c (some_else (same x.key key) n e)
    ]
  where
    some_if :
        (b : Bool)
        → b ≡ true
        → (if b then some x.counters else lookup_entry key es) ≡ some c
        → x.counters ≡ c
    some_if true y k = ground arith
    some_if false y k = absurd (ground arith)

    some_else :
        (b : Bool)
        → b ≡ false
        → (if b then some x.counters else lookup_entry key es) ≡ some c
        → lookup_entry key es ≡ some c
    some_else true y k = absurd (ground arith)
    some_else false y k = k
