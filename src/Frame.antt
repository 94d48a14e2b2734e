-- ===== src/Frame.antt =====
-- The fixed-size record frame, src/core/frame2.ts. An exception of `buildFrame` and the `null` of
-- `parseFrame` are `none`.
mod Tests
pub mod RoundTrip
use true_pad.Base.Buffer.{set_bytes, le_bytes, le_value, zeros}
use true_pad.Base.{
  ℕ, zero, suc, ◌+◌, ◌-◌, ◌*◌, ◌/◌, ◌%◌, ◌^◌, ◌≤◌, ◌<◌, ◌≡◌, ◌≢◌, ◌↔◌, ◌⊎◌, inl, inr, refl, sym, ap,
  ap₂, subst, ◌∙◌, bit_and, bit_or, bit_xor, true, false, not, ◌&&◌, ◌||◌, List, [], ◌∷◌, ◌++◌,
  Bool, Option, none, some, arith, Bytes, IsByte, IsBytes, All, length, take, drop, replicate,
  get_elem?, get_or, ◌==◌, ltb, leb, if◌then◌else◌, ◌>>=◌, min, max, Bool-cases, Option-cases,
  codes, max_safe, same, append-nil, append_assoc, map,
}

abbrev pub length_prefix_bytes : ℕ
length_prefix_bytes = 4

unfoldable pub frame_capacity : ℕ → ℕ
frame_capacity record_bytes = record_bytes - length_prefix_bytes

-- `setUint32(0, n, true)` keeps 32 bits of `n`.
unfoldable pub build_frame : Bytes → ℕ → Option Bytes
build_frame plaintext record_bytes =
    if ltb max_safe record_bytes || ltb record_bytes length_prefix_bytes
    then none
    else if ltb (record_bytes - length_prefix_bytes) (length plaintext)
    then none
    else some (
        set_bytes (set_bytes (zeros record_bytes) 0 (le_bytes 4 (length plaintext)))
          length_prefix_bytes plaintext)

unfoldable pub parse_frame : Bytes → Option Bytes
parse_frame frame =
    if ltb (length frame) length_prefix_bytes
    then none
    else let declared = le_value (take 4 frame) in
      if ltb (length frame - length_prefix_bytes) declared
      then none
      else some (take declared (drop length_prefix_bytes frame))
