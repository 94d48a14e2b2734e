-- ===== src/Store/Header/Shape.antt =====
-- The tests by which `validateHead` of src/cli/v2/store2.ts tells the shape of a JSON value.
use true_pad.Base.{
  ℕ, true, false, not, ◌&&◌, List, [], ◌∷◌, Bool, Option, none, some, ◌==◌, if◌then◌else◌, ◌>>=◌,
  same,
}
use true_pad.Json.Tree.{Json, count, string, flag, object, Members, no_members, member, value_of}
use true_pad.Envelope.Decode.{includes}

abbrev pub own : Members → List ℕ → Bool
own ms key = elim (value_of key ms) [ some v ↦ true | none ↦ false ]

unfoldable pub all_own : Members → List (List ℕ) → Bool
all_own ms [] = true
all_own ms (k ∷ ks) = own ms k && all_own ms ks

unfoldable pub all_expected : List (List ℕ) → Members → Bool
all_expected keys no_members = true
all_expected keys (member k v ms) = includes k keys && all_expected keys ms

-- `keyMismatch(…) === null`.
abbrev pub keys_match : Members → List (List ℕ) → Bool
keys_match ms keys = all_own ms keys && all_expected keys ms

-- A test that must hold.
abbrev pub require : Bool → Option Bool
require b = if b then some true else none

-- A member that must be an object with exactly these keys.
abbrev pub object_of : Option Json → Option Members
object_of (some (object ms)) = some ms
object_of _ = none

unfoldable pub exact_object : List (List ℕ) → Option Json → Option Members
exact_object keys v = do ms ← object_of v; _ ← require (keys_match ms keys); some ms

abbrev pub is_text : Option Json → List ℕ → Bool
is_text (some (string units)) t = same units t
is_text _ t = false

abbrev pub is_count_of : Option Json → ℕ → Bool
is_count_of (some (count n)) m = n == m
is_count_of _ m = false

abbrev pub is_false : Option Json → Bool
is_false (some (flag b)) = not b
is_false _ = false
