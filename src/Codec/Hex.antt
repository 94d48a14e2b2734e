-- ===== src/Codec/Hex.antt =====
-- The hex codec, src/core/hex.ts. A text is the list of its code units; `null` is `none`.
pub mod RoundTrip
use true_pad.Base.{
  ℕ, zero, suc, ◌+◌, ◌-◌, ◌*◌, ◌/◌, ◌%◌, Bool, true, false, ◌&&◌, ◌||◌, List, [], ◌∷◌, ◌++◌, Option,
  none, some, Bytes, leb, ltb, if◌then◌else◌, ◌==◌, length, replicate,
}

-- `Number.prototype.toString(16)`, one digit.
unfoldable pub hex_digit : ℕ → ℕ
hex_digit d = if ltb d 10 then b'0' + d else b'a' + (d - 10)

-- `byte.toString(16)`: one digit for a value below 16, two for the other bytes.
unfoldable pub to_string16 : ℕ → List ℕ
unfolding hex_digit
to_string16 b = if ltb b 16 then hex_digit b ∷ [] else hex_digit (b / 16) ∷ hex_digit (b % 16) ∷ []

-- `String.prototype.padStart`.
unfoldable pub pad_start : ℕ → ℕ → List ℕ → List ℕ
pad_start width fill text = replicate (width - length text) fill ++ text

unfoldable pub bytes_to_hex : Bytes → List ℕ
unfolding to_string16 pad_start
bytes_to_hex [] = []
bytes_to_hex (b ∷ bs) = pad_start 2 b'0' (to_string16 b) ++ bytes_to_hex bs

-- The class `[0-9a-f]`.
unfoldable pub is_hex_digit : ℕ → Bool
is_hex_digit c = (leb b'0' c && leb c b'9') || (leb b'a' c && leb c b'f')

-- The pattern `^(?:[0-9a-f]{2})*$`.
unfoldable pub is_hex : List ℕ → Bool
is_hex [] = true
is_hex (a ∷ []) = false
is_hex (a ∷ b ∷ t) = is_hex_digit a && is_hex_digit b && is_hex t

-- The value of a digit, as `parseInt(…, 16)` reads it.
unfoldable pub hex_value : ℕ → ℕ
hex_value c = if leb c b'9' then c - b'0' else c - b'a' + 10

-- The loop that fills `out`, two characters a round.
unfoldable pub hex_pairs : List ℕ → Bytes
hex_pairs [] = []
hex_pairs (a ∷ []) = []
hex_pairs (a ∷ b ∷ t) = (hex_value a * 16 + hex_value b) ∷ hex_pairs t

unfoldable pub hex_to_bytes : List ℕ → Option Bytes
unfolding is_hex hex_pairs
hex_to_bytes t = if is_hex t then some (hex_pairs t) else none
