-- ===== src/Envelope/Decimal.antt =====
-- Canonical decimal integers: `String(n)` of a non-negative safe integer, and the pattern
-- `^(?:0|[1-9][0-9]*)$` by which src/core/envelope2.ts reads one.
pub mod RoundTrip
use true_pad.Base.{
  ℕ, zero, suc, ◌+◌, ◌-◌, ◌*◌, ◌/◌, ◌%◌, Bool, true, false, ◌&&◌, List, [], ◌∷◌, ◌++◌, Option, none,
  some, leb, ◌==◌, ltb, if◌then◌else◌,
}

abbrev pub is_decimal_digit : ℕ → Bool
is_decimal_digit c = leb b'0' c && leb c b'9'

-- A number below `10 ^ fuel` has all its digits.
unfoldable pub digits : ℕ → ℕ → List ℕ
digits zero n = []
digits (suc fuel) n =
    let more = digits fuel (n / 10) ++ (b'0' + n % 10) ∷ [] in
    if ltb n 10 then (b'0' + n) ∷ [] else more

-- A safe integer has at most sixteen digits.
unfoldable pub to_decimal : ℕ → List ℕ
to_decimal n = digits 16 n

unfoldable pub all_digits : List ℕ → Bool
all_digits [] = true
all_digits (c ∷ cs) = is_decimal_digit c && all_digits cs

-- The pattern `^(?:0|[1-9][0-9]*)$`.
unfoldable pub is_canonical : List ℕ → Bool
is_canonical [] = false
is_canonical (c ∷ []) = is_decimal_digit c
is_canonical (c ∷ d ∷ cs) = leb b'1' c && leb c b'9' && all_digits (d ∷ cs)

-- The value of the digits read after `acc`.
unfoldable pub value_from : ℕ → List ℕ → ℕ
value_from acc [] = acc
value_from acc (c ∷ cs) = value_from (acc * 10 + (c - b'0')) cs

-- The number that a canonical spelling denotes.
unfoldable pub decimal_value : List ℕ → ℕ
decimal_value t = value_from 0 t
