-- ===== src/Codec/Base64.antt =====
-- Canonical unpadded base64url, the codec of src/core/compact-envelope2.ts. A text is the list of
-- its code units; `null`, and a lookup that finds nothing, are `none`.
pub mod RoundTrip
use true_pad.Base.{
  ℕ, suc, ◌*◌, ◌/◌, ◌%◌, ◌^◌, bit_and, bit_or, List, [], ◌∷◌, ◌++◌, Option, none, some, Bytes,
  codes, if◌then◌else◌, ◌==◌, ◌>>=◌, length, get_or,
}

abbrev pub b64_alphabet : List ℕ
b64_alphabet = codes "ABCDEFGHIJKLMNOPQRSTUVWXYZabcdefghijklmnopqrstuvwxyz0123456789-_"

-- `B64URL[i]`; every index the encoder uses is below 64.
unfoldable pub b64_char : ℕ → ℕ
b64_char i = get_or b64_alphabet i 0

unfoldable pub find_from : ℕ → List ℕ → ℕ → Option ℕ
find_from i [] c = none
find_from i (x ∷ xs) c = let rest = find_from (suc i) xs c in if x == c then some i else rest

-- `B64URL_INDEX[c]`, the table that the module fills when it loads.
unfoldable pub b64_index : ℕ → Option ℕ
unfolding find_from
b64_index c = find_from 0 b64_alphabet c

-- One round of the encoder takes up to three bytes.
unfoldable pub to_base64_url : Bytes → List ℕ
to_base64_url [] = []
to_base64_url (b0 ∷ []) =
    b64_char (b0 / 4) ∷ b64_char (bit_or (bit_and b0 3 * 2 ^ 4) (0 / 2 ^ 4)) ∷ []
to_base64_url (b0 ∷ b1 ∷ []) =
    b64_char (b0 / 4)
    ∷ b64_char (bit_or (bit_and b0 3 * 2 ^ 4) (b1 / 2 ^ 4))
    ∷ b64_char (bit_or (bit_and b1 15 * 2 ^ 2) (0 / 2 ^ 6))
    ∷ []
to_base64_url (b0 ∷ b1 ∷ b2 ∷ bs) =
    b64_char (b0 / 4)
    ∷ b64_char (bit_or (bit_and b0 3 * 2 ^ 4) (b1 / 2 ^ 4))
    ∷ b64_char (bit_or (bit_and b1 15 * 2 ^ 2) (b2 / 2 ^ 6))
    ∷ b64_char (bit_and b2 63)
    ∷ to_base64_url bs

-- The bytes that two to four values of a group give. A write to `out` keeps eight bits.
unfoldable pub byte0 : ℕ → ℕ → ℕ
byte0 c0 c1 = bit_or (c0 * 2 ^ 2) (c1 / 2 ^ 4) % 256

unfoldable pub byte1 : ℕ → ℕ → ℕ
byte1 c1 c2 = bit_or (bit_and c1 15 * 2 ^ 4) (c2 / 2 ^ 2) % 256

unfoldable pub byte2 : ℕ → ℕ → ℕ
byte2 c2 c3 = bit_or (bit_and c2 3 * 2 ^ 6) c3 % 256

-- The decoder's loop, four characters a round. A group of one character looks up `undefined`.
unfoldable pub from_groups : List ℕ → Option Bytes
from_groups [] = some []
from_groups (t0 ∷ []) = none
from_groups (t0 ∷ t1 ∷ []) = do c0 ← b64_index t0; c1 ← b64_index t1; some (byte0 c0 c1 ∷ [])
from_groups (t0 ∷ t1 ∷ t2 ∷ []) = do
  c0 ← b64_index t0
  c1 ← b64_index t1
  c2 ← b64_index t2
  some (byte0 c0 c1 ∷ byte1 c1 c2 ∷ [])
from_groups (t0 ∷ t1 ∷ t2 ∷ t3 ∷ ts) = do
  c0 ← b64_index t0
  c1 ← b64_index t1
  c2 ← b64_index t2
  c3 ← b64_index t3
  rest ← from_groups ts
  some (byte0 c0 c1 ∷ byte1 c1 c2 ∷ byte2 c2 c3 ∷ rest)

unfoldable pub from_base64_url : List ℕ → Option Bytes
from_base64_url t = if length t % 4 == 1 then none else from_groups t
