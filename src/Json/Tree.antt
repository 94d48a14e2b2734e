-- ===== src/Json/Tree.antt =====
-- A value as `JSON.parse` gives it, as far as the program's validators tell values apart: a
-- non-negative integer, a text, a truth value, an array or an object with its members in order, or
-- anything else.
use true_pad.Base.{
  ℕ, suc, ◌≤◌, ◌≡◌, refl, false, List, Bool, Option, none, some, arith, ltb, if◌then◌else◌, ◌>>=◌,
  max_safe, same,
}

mutual
  pub data Json : Type 0 where
    count : (n : ℕ) → Json
    string : (units : List ℕ) → Json
    flag : (value : Bool) → Json
    array : (items : Items) → Json
    object : (members : Members) → Json
    other : Json

  pub data Items : Type 0 where
    no_items : Items
    item : (value : Json) → (rest : Items) → Items

  pub data Members : Type 0 where
    no_members : Members
    member : (key : List ℕ) → (value : Json) → (rest : Members) → Members

-- The value of a member.
unfoldable pub value_of : List ℕ → Members → Option Json
value_of key no_members = none
value_of key (member k v ms) = let rest = value_of key ms in if same k key then some v else rest

unfoldable pub count_members : Members → ℕ
count_members no_members = 0
count_members (member k v ms) = suc (count_members ms)

-- `isSafeCount`.
abbrev pub safe_count : Option Json → Option ℕ
safe_count (some (count n)) = if ltb max_safe n then none else some n
safe_count _ = none

pub safe_count-count : (n : ℕ) → n ≤ max_safe → safe_count (some (count n)) ≡ some n
safe_count-count n h = let b : ltb max_safe n ≡ false = ground arith in rw (b)

pub safe_count-inv : (v : Option Json) (n : ℕ) → safe_count v ≡ some n → n ≤ max_safe
safe_count-inv none n h = absurd (ground arith)
safe_count-inv (some (string u)) n h = absurd (ground arith)
safe_count-inv (some (flag b)) n h = absurd (ground arith)
safe_count-inv (some (array xs)) n h = absurd (ground arith)
safe_count-inv (some (object ms)) n h = absurd (ground arith)
safe_count-inv (some other) n h = absurd (ground arith)
safe_count-inv (some (count m)) n h = ground arith

-- A step that has found its value.
pub step :
    {A B : Type 0} (o : Option A) (f : A → Option B) (b : B)
    → (o >>= f) ≡ some b
    → (a : A) × (o ≡ some a) × (f a ≡ some b)
step none f b h = absurd (ground arith)
step (some a) f b h = (a, refl, h)
