-- ===== src/Field.antt =====
-- GF(2^128) and POLYVAL, src/core/gf128.ts. A `bigint` field element is a number; an exception on a
-- wrong length is `none`.
mod Tests
pub mod Bytes16
pub mod Linear
pub mod Polyval
pub mod Horner
use true_pad.Base.{
  ℕ, zero, suc, ◌+◌, ◌-◌, ◌*◌, ◌/◌, ◌%◌, ◌^◌, ◌≤◌, ◌<◌, ◌≡◌, ◌≢◌, ◌↔◌, ◌⊎◌, inl, inr, refl, sym, ap,
  ap₂, subst, ◌∙◌, bit_and, bit_or, bit_xor, true, false, not, ◌&&◌, ◌||◌, List, [], ◌∷◌, ◌++◌,
  Bool, Option, none, some, arith, Bytes, IsByte, IsBytes, All, length, take, drop, replicate,
  get_elem?, get_or, ◌==◌, ltb, leb, if◌then◌else◌, ◌>>=◌, min, max, Bool-cases, Option-cases,
  codes, max_safe, same, append-nil, append_assoc, map,
}

abbrev pub bit_128 : ℕ
bit_128 = 2 ^ 128

-- x^128 + x^127 + x^126 + x^121 + 1.
abbrev pub poly : ℕ
poly = bit_or (bit_or (bit_or (bit_or (2 ^ 128) (2 ^ 127)) (2 ^ 126)) (2 ^ 121)) 1

-- x^-128, that is x^127 + x^124 + x^121 + x^114 + 1.
abbrev pub x_neg_128 : ℕ
x_neg_128 = bit_or (bit_or (bit_or (bit_or (2 ^ 127) (2 ^ 124)) (2 ^ 121)) (2 ^ 114)) 1

-- The loop from the last byte down: the value of the later bytes is shifted up by eight.
unfoldable pub read_le : Bytes → ℕ
read_le [] = 0
read_le (b ∷ bs) = bit_or (read_le bs * 2 ^ 8) b

unfoldable pub bytes_to_field : Bytes → Option ℕ
unfolding read_le
bytes_to_field bytes = if length bytes == 16 then some (read_le bytes) else none

-- `n` rounds of `out[i] = rest & 0xff; rest >>= 8`.
unfoldable pub write_le : ℕ → ℕ → Bytes
write_le zero rest = []
write_le (suc n) rest = bit_and rest 255 ∷ write_le n (rest / 2 ^ 8)

unfoldable pub field_to_bytes : ℕ → Bytes
unfolding write_le
field_to_bytes fe = write_le 16 fe

-- Multiplication by x: shift, and reduce when a bit leaves the field.
unfoldable pub times_x : ℕ → ℕ
times_x shifted =
    let doubled = shifted * 2 in
    if bit_and doubled bit_128 == 0 then doubled else bit_xor doubled poly

-- The rounds of `gfMul` that are left, at bit `i` of `b`.
unfoldable pub mul_rounds : ℕ → ℕ → ℕ → ℕ → ℕ → ℕ
mul_rounds zero i b result shifted = result
mul_rounds (suc n) i b result shifted =
    mul_rounds n (i + 1) b (if bit_and (b / 2 ^ i) 1 == 0 then result else bit_xor result shifted)
      (times_x shifted)

unfoldable pub gf_mul : ℕ → ℕ → ℕ
gf_mul a b = mul_rounds 128 0 b 0 a

unfoldable pub dot : ℕ → ℕ → ℕ
dot a b = gf_mul (gf_mul a b) x_neg_128

-- The loop over whole blocks: `rounds` of them are left in `message`.
unfoldable pub polyval_blocks : ℕ → ℕ → ℕ → Bytes → ℕ
polyval_blocks zero key s message = s
polyval_blocks (suc rounds) key s message =
    polyval_blocks rounds key (dot (bit_xor s (read_le (take 16 message))) key) (drop 16 message)

unfoldable pub polyval : Bytes → Bytes → Option Bytes
polyval h message =
    if length message % 16 == 0
    then (do
      key ← bytes_to_field h
      some (field_to_bytes (polyval_blocks (length message / 16) key 0 message)))
    else none
