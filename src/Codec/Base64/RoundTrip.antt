-- ===== src/Codec/Base64/RoundTrip.antt =====
-- Every byte string is read back from its base64url text.
use true_pad.Base.{
  ℕ, zero, suc, ◌+◌, ◌*◌, ◌/◌, ◌%◌, ◌<◌, ◌^◌, ◌≡◌, refl, true, false, ◌&&◌, [], ◌∷◌, bit_and,
  bit_or, Bool, none, some, arith, Bytes, IsBytes, length, ◌==◌,
}
use true_pad.Base.Bits.{mask2, mask4, mask6, bit_or_low}
use true_pad.Codec.Base64.{
  b64_char, b64_index, to_base64_url, byte0, byte1, byte2, from_groups, from_base64_url,
}

-- The table is the inverse of the alphabet: checked at each of the 64 values.
inverts_below : ℕ → Bool
inverts_below zero = true
inverts_below (suc n) = elim (b64_index (b64_char n)) [
  | none ↦ false
  | some i ↦ i == n && inverts_below n
]

inverts_below_sound : (n i : ℕ) → inverts_below n ≡ true → i < n → b64_index (b64_char i) ≡ some i
unfolding inverts_below
inverts_below_sound zero i h lt = absurd (omega arith)
inverts_below_sound (suc n) i h lt = ground (arith, inverts_below_sound n i)

pub index-char : (i : ℕ) → i < 64 → b64_index (b64_char i) ≡ some i
index-char i h = inverts_below_sound 64 i table h
  where
    table : inverts_below 64 ≡ true
    table = unfold inverts_below b64_index b64_char in refl

-- The values of the second and third characters, as sums.
pub join4 : (a b : ℕ) → b < 256 → bit_or (bit_and a 3 * 2 ^ 4) (b / 2 ^ 4) ≡ a % 4 * 16 + b / 16
join4 a b h = rw mask2 (bit_or_low 4 (a % 4) (b / 16) (omega arith))

pub join2 : (a b : ℕ) → b < 256 → bit_or (bit_and a 15 * 2 ^ 2) (b / 2 ^ 6) ≡ a % 16 * 4 + b / 64
join2 a b h = rw mask4 (bit_or_low 2 (a % 16) (b / 64) (omega arith))

pub byte0_sum : (c0 c1 : ℕ) → c0 < 64 → c1 < 64 → byte0 c0 c1 ≡ c0 * 4 + c1 / 16
unfolding byte0
byte0_sum c0 c1 p q = rw (bit_or_low 2 c0 (c1 / 16) (omega arith)) (omega arith)

pub byte1_sum : (c1 c2 : ℕ) → c1 < 64 → c2 < 64 → byte1 c1 c2 ≡ c1 % 16 * 16 + c2 / 4
unfolding byte1
byte1_sum c1 c2 p q = rw (mask4, bit_or_low 4 (c1 % 16) (c2 / 4) (omega arith)) (omega arith)

pub byte2_sum : (c2 c3 : ℕ) → c2 < 64 → c3 < 64 → byte2 c2 c3 ≡ c2 % 4 * 64 + c3
unfolding byte2
byte2_sum c2 c3 p q = rw (mask2, bit_or_low 6 (c2 % 4) c3 q) (omega arith)

-- The three bytes of a full group.
first : (a b : ℕ) → a < 256 → b < 256 → byte0 (a / 4) (a % 4 * 16 + b / 16) ≡ a
first a b p q = omega (arith, byte0_sum (a / 4) (a % 4 * 16 + b / 16) (omega arith) (omega arith))

second : (a b c : ℕ) → b < 256 → c < 256 → byte1 (a % 4 * 16 + b / 16) (b % 16 * 4 + c / 64) ≡ b
second a b c p q =
    omega (arith, byte1_sum (a % 4 * 16 + b / 16) (b % 16 * 4 + c / 64) (omega arith) (omega arith))

third : (b c : ℕ) → c < 256 → byte2 (b % 16 * 4 + c / 64) (c % 64) ≡ c
third b c q = omega (arith, byte2_sum (b % 16 * 4 + c / 64) (c % 64) (omega arith) (omega arith))

from_groups-to_base64_url : (bs : Bytes) → IsBytes bs → from_groups (to_base64_url bs) ≡ some bs
unfolding from_groups to_base64_url
from_groups-to_base64_url [] h = refl
from_groups-to_base64_url (a ∷ []) h = rw (
  join4 a 0 (omega arith),
  index-char (a / 4) (omega arith),
  index-char (a % 4 * 16 + 0 / 16) (omega arith),
  first a 0 h.0 (omega arith),
)
from_groups-to_base64_url (a ∷ b ∷ []) h = rw (
  join4 a b h.1.0,
  join2 b 0 (omega arith),
  index-char (a / 4) (omega arith),
  index-char (a % 4 * 16 + b / 16) (omega arith),
  index-char (b % 16 * 4 + 0 / 64) (omega arith),
  first a b h.0 h.1.0,
  second a b 0 h.1.0 (omega arith),
)
from_groups-to_base64_url (a ∷ b ∷ c ∷ bs) h = rw (
  join4 a b h.1.0,
  join2 b c h.1.1.0,
  mask6 c,
  index-char (a / 4) (omega arith),
  index-char (a % 4 * 16 + b / 16) (omega arith),
  index-char (b % 16 * 4 + c / 64) (omega arith),
  index-char (c % 64) (omega arith),
  first a b h.0 h.1.0,
  second a b c h.1.0 h.1.1.0,
  third b c h.1.1.0,
  from_groups-to_base64_url bs h.1.1.1,
)

length_mod : (bs : Bytes) → (length (to_base64_url bs) % 4 == 1) ≡ false
unfolding to_base64_url
length_mod [] = refl
length_mod (a ∷ []) = refl
length_mod (a ∷ b ∷ []) = refl
length_mod (a ∷ b ∷ c ∷ bs) = ground (arith, length_mod bs)

-- Decoding an encoded byte string gives it back, for every byte string.
pub from_base64_url-to_base64_url :
    (bs : Bytes) → IsBytes bs → from_base64_url (to_base64_url bs) ≡ some bs
unfolding from_base64_url
from_base64_url-to_base64_url bs h = rw (length_mod bs, from_groups-to_base64_url bs h)
