-- ===== src/Rollback.antt =====
-- The file of the rollback witness, src/cli/v2/witness.ts: its shape, the two touchpoints and the
-- provisioning. A plain error is `none`; the file's JSON is a tree, as `JSON.parse` gives it.
mod Tests
pub mod Restored
pub mod Serial
pub mod Advance
pub mod Processes
pub mod RoundTrip
pub mod Order
use true_pad.Base.{
  ℕ, zero, suc, ◌+◌, ◌-◌, ◌*◌, ◌/◌, ◌%◌, ◌^◌, ◌≤◌, ◌<◌, ◌≡◌, ◌≢◌, ◌↔◌, ◌⊎◌, inl, inr, refl, sym, ap,
  ap₂, subst, ◌∙◌, bit_and, bit_or, bit_xor, true, false, not, ◌&&◌, ◌||◌, List, [], ◌∷◌, ◌++◌,
  Bool, Option, none, some, arith, Bytes, IsByte, IsBytes, All, length, take, drop, replicate,
  get_elem?, get_or, ◌==◌, ltb, leb, if◌then◌else◌, ◌>>=◌, min, max, Bool-cases, Option-cases,
  codes, max_safe, same, append-nil, append_assoc, map,
}
use true_pad.Json.Tree.{
  Json, count, object, Members, no_members, member, value_of, count_members, safe_count,
}
use true_pad.Direction.{Direction}
use true_pad.Envelope.{direction_text}
use true_pad.Verbs.Outcome.{Reason, witness_unreachable, witness_inconsistent}
use true_pad.Verbs.Witness.{WitnessCounters}

pub record Entry : Type 0 where
  pub key : List ℕ
  pub counters : WitnessCounters

abbrev pub Entries : Type 0
Entries = List Entry

-- `keyOf`.
abbrev pub key_of : List ℕ → Direction → List ℕ
key_of pair_id direction = pair_id ++ b'/' ∷ direction_text direction

-- An entry is exactly the three counters.
unfoldable pub entry_counters : Json → Option WitnessCounters
entry_counters (object ms) = do
  _ ← if count_members ms == 3 then some true else none
  a ← safe_count (value_of (codes "encryptionNextOffset") ms)
  b ← safe_count (value_of (codes "authenticationNextSequence") ms)
  c ← safe_count (value_of (codes "attemptsReserved") ms)
  some (record {
    encryption_next_offset = a;
    authentication_next_sequence = b;
    attempts_reserved = c;
  })
entry_counters _ = none

-- The loop over the entries. An assignment to `__proto__` makes no entry.
unfoldable pub read_entries : Members → Option Entries
read_entries no_members = some []
read_entries (member k v ms) = do
  c ← entry_counters v
  rest ← read_entries ms
  some (if same k (codes "__proto__") then rest else record { key = k; counters = c } ∷ rest)

abbrev pub is_count_2 : Option Json → Bool
is_count_2 (some (count n)) = n == 2
is_count_2 _ = false

abbrev pub read_witness_member : Option Json → Option Entries
read_witness_member (some (object entries)) = read_entries entries
read_witness_member _ = none

unfoldable pub validate_witness_file : Json → Option Entries
validate_witness_file (object ms) =
    if is_count_2 (value_of (codes "formatVersion") ms)
    then read_witness_member (value_of (codes "witness") ms)
    else none
validate_witness_file _ = none

-- What a read of the path meets.
pub data WitnessFile : Type 0 where
  missing unreadable blank not_json : WitnessFile
  json : (value : Json) → WitnessFile

-- The entries of a file that can be read and has the shape.
unfoldable pub entries_of : WitnessFile → Option Entries
entries_of (json value) = validate_witness_file value
entries_of _ = none

unfoldable pub lookup_entry : List ℕ → Entries → Option WitnessCounters
lookup_entry key [] = none
lookup_entry key (e ∷ es) =
    let rest = lookup_entry key es in if same e.key key then some e.counters else rest

-- A file that fails its shape is refused.
abbrev pub of_shape : {A : Type 0} → Option Entries → (Entries → A) → Reason ⊎ A
of_shape none f = inl witness_inconsistent
of_shape (some es) f = inr (f es)

-- A read that cannot be had is one refusal, a file without the shape the other.
unfoldable pub readable : {A : Type 0} → WitnessFile → (Entries → A) → Reason ⊎ A
readable missing f = inl witness_unreachable
readable unreadable f = inl witness_unreachable
readable blank f = inl witness_inconsistent
readable not_json f = inl witness_inconsistent
readable (json value) f = of_shape (validate_witness_file value) f

unfoldable pub read_witness_counters :
    WitnessFile → List ℕ → Direction → Reason ⊎ Option WitnessCounters
read_witness_counters file pair_id direction =
    readable file (lookup_entry (key_of pair_id direction))

unfoldable pub read_witness_snapshot : WitnessFile → Reason ⊎ Entries
read_witness_snapshot file = readable file (λ es. es)

-- One entry of the snapshot against the file.
unfoldable pub fell : WitnessCounters → Option WitnessCounters → Bool
fell was none = true
fell was (some now) =
    ltb now.encryption_next_offset was.encryption_next_offset
    || ltb now.authentication_next_sequence was.authentication_next_sequence
    || ltb now.attempts_reserved was.attempts_reserved

-- `regressionAgainst(…) !== null`.
unfoldable pub regression_against : Entries → Entries → Bool
regression_against [] current = false
regression_against (e ∷ es) current =
    fell e.counters (lookup_entry e.key current) || regression_against es current

-- An assignment to a key: the entry in its place, or a new one at the end.
unfoldable pub set_entry : List ℕ → WitnessCounters → Entries → Entries
set_entry key c [] = record { key = key; counters = c } ∷ []
set_entry key c (e ∷ es) =
    let rest = set_entry key c es in
    if same e.key key then record { key = e.key; counters = c } ∷ es else e ∷ rest

abbrev pub max_counters : WitnessCounters → WitnessCounters → WitnessCounters
max_counters a b = record {
  encryption_next_offset = max a.encryption_next_offset b.encryption_next_offset;
  authentication_next_sequence = max a.authentication_next_sequence b.authentication_next_sequence;
  attempts_reserved = max a.attempts_reserved b.attempts_reserved;
}

-- `file.witness[key] ?? { … 0 … }`.
abbrev pub previous : Option WitnessCounters → WitnessCounters
previous none = record {
  encryption_next_offset = 0;
  authentication_next_sequence = 0;
  attempts_reserved = 0;
}
previous (some c) = c

unfoldable pub advance_entries : List ℕ → WitnessCounters → Entries → Entries
advance_entries key c es = set_entry key (max_counters (previous (lookup_entry key es)) c) es

abbrev pub has_regressed : Option Entries → Entries → Bool
has_regressed none es = false
has_regressed (some snapshot) es = regression_against snapshot es

-- `advanceLocked`: the entries that it writes.
unfoldable pub advance_locked :
    WitnessFile → List ℕ → WitnessCounters → Option Entries → Option Entries
advance_locked file key c snapshot = do
  es ← entries_of file
  if has_regressed snapshot es then none else some (advance_entries key c es)

-- The tree of a file with these entries, as `JSON.stringify` writes it.
abbrev pub entry_json : WitnessCounters → Json
entry_json c = object (
    member (codes "encryptionNextOffset") (count c.encryption_next_offset) (
      member (codes "authenticationNextSequence") (count c.authentication_next_sequence)
        (member (codes "attemptsReserved") (count c.attempts_reserved) no_members)))

unfoldable pub entries_json : Entries → Members
entries_json [] = no_members
entries_json (e ∷ es) = member e.key (entry_json e.counters) (entries_json es)

unfoldable pub file_of : Entries → WitnessFile
file_of es = json (
    object (
      member (codes "formatVersion") (count 2)
        (member (codes "witness") (object (entries_json es)) no_members)))

pub data WitnessInit : Type 0 where
  created existing init_refused : WitnessInit

abbrev pub init_existing : Option Entries → WitnessFile → WitnessInit × WitnessFile
init_existing (some []) file = (existing, file)
init_existing _ file = (init_refused, file)

-- `initWitness` on a safe path: what it answers, and the file it leaves.
unfoldable pub init_witness : WitnessFile → WitnessInit × WitnessFile
init_witness missing = (created, file_of [])
init_witness unreadable = (init_refused, unreadable)
init_witness blank = (init_refused, blank)
init_witness not_json = (init_refused, not_json)
init_witness (json value) = init_existing (validate_witness_file value) (json value)
