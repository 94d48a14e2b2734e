-- ===== src/Codec/Leb128.antt =====
-- Canonical unsigned LEB128, `writeUleb128` and `readUleb128` of src/core/compact-envelope2.ts.
-- The reader's offset is carried as the bytes that are still unread.
pub mod RoundTrip
pub mod Canonical
use true_pad.Base.{
  ℕ, zero, suc, ◌+◌, ◌-◌, ◌*◌, ◌/◌, ◌%◌, ◌^◌, ◌≤◌, ◌<◌, ◌≡◌, ◌≢◌, ◌↔◌, ◌⊎◌, inl, inr, refl, sym, ap,
  ap₂, subst, ◌∙◌, bit_and, bit_or, bit_xor, true, false, not, ◌&&◌, ◌||◌, List, [], ◌∷◌, ◌++◌,
  Bool, Option, none, some, arith, Bytes, IsByte, IsBytes, All, length, take, drop, replicate,
  get_elem?, get_or, ◌==◌, ltb, leb, if◌then◌else◌, ◌>>=◌, min, max, Bool-cases, Option-cases,
  codes, max_safe, same, append-nil, append_assoc, map,
}

-- The `do … while (v > 0)` loop. Each round divides `v` by 128, so `v + 1` rounds are enough.
unfoldable pub write_groups : ℕ → ℕ → Bytes
write_groups zero v = []
write_groups (suc fuel) v =
    let more = bit_or (bit_and v 127) 128 ∷ write_groups fuel (v / 128) in
    if ltb 0 (v / 128) then more else bit_and v 127 ∷ []

unfoldable pub write_uleb128 : ℕ → Bytes
write_uleb128 v = write_groups (suc v) v

pub data UlebError : Type 0 where
  truncated not_minimal too_long beyond_safe : UlebError

-- `{ ok: true, value, next }` or `{ ok: false, why }`.
pub data UlebRead : Type 0 where
  found : ℕ → Bytes → UlebRead
  refused : UlebError → UlebRead

-- What the reader does at a byte with no continuation bit.
unfoldable pub last_group : ℕ → ℕ → ℕ → Bytes → UlebRead
last_group count b value rest =
    if ltb 1 (count + 1) && b == 0
    then refused not_minimal
    else if ltb max_safe value
    then refused beyond_safe
    else found value rest

-- `count` is `i - offset` before the byte is read.
unfoldable pub read_groups : ℕ → ℕ → ℕ → Bytes → UlebRead
read_groups count value shift [] = refused truncated
read_groups count value shift (b ∷ bs) =
    let value' = bit_or value (bit_and b 127 * 2 ^ shift) in
    let rest =
      if ltb 63 (shift + 7)
      then refused too_long
      else read_groups (count + 1) value' (shift + 7) bs in
    if bit_and b 128 == 0 then last_group count b value' bs else rest

unfoldable pub read_uleb128 : Bytes → UlebRead
read_uleb128 bs = read_groups 0 0 0 bs
