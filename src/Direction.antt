-- ===== src/Direction.antt =====
-- The two directions of a pair, `PadDirection` of src/core/pad.ts, and the two parties.
use true_pad.Base.{◌≡◌, true, false, Bool, arith}

pub data Direction : Type 0 where
  a_to_b b_to_a : Direction

pub Direction-discrete : Discrete Direction
Direction-discrete = hlevel

abbrev pub same_direction : Direction → Direction → Bool
same_direction a_to_b a_to_b = true
same_direction b_to_a b_to_a = true
same_direction _ _ = false

pub same_direction-eq : (d e : Direction) → same_direction d e ≡ true → d ≡ e
same_direction-eq d e h = ground arith

pub same_direction_self : (d : Direction) → same_direction d d ≡ true
same_direction_self d = ground arith
