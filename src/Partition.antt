-- ===== src/Partition.antt =====
-- The partition of source material, src/core/partition2.ts. An exception is `none`.
mod Tests
pub mod Combine
pub mod Slices
use true_pad.Base.Buffer.{zeros}
use true_pad.Base.Xor.{xor_bytes}
use true_pad.Tag.{auth_record_bytes}
use true_pad.Base.{
  ℕ, zero, suc, ◌+◌, ◌-◌, ◌*◌, ◌/◌, ◌%◌, ◌^◌, ◌≤◌, ◌<◌, ◌≡◌, ◌≢◌, ◌↔◌, ◌⊎◌, inl, inr, refl, sym, ap,
  ap₂, subst, ◌∙◌, bit_and, bit_or, bit_xor, true, false, not, ◌&&◌, ◌||◌, List, [], ◌∷◌, ◌++◌,
  Bool, Option, none, some, arith, Bytes, IsByte, IsBytes, All, length, take, drop, replicate,
  get_elem?, get_or, ◌==◌, ltb, leb, if◌then◌else◌, ◌>>=◌, min, max, Bool-cases, Option-cases,
  codes, max_safe, same, append-nil, append_assoc, map,
}

abbrev pub key_bytes : ℕ
key_bytes = 16

unfoldable pub required_source_length : ℕ → ℕ → Option ℕ
required_source_length capacity records =
    if ltb max_safe capacity || ltb max_safe records
    then none
    else if ltb max_safe (2 * (capacity + auth_record_bytes * records))
    then none
    else some (2 * (capacity + auth_record_bytes * records))

pub record PairSlices : Type 0 where
  pub ab_encryption : Bytes
  pub ab_authentication : Bytes
  pub ba_encryption : Bytes
  pub ba_authentication : Bytes

-- The check of every source, in order.
unfoldable pub all_long_enough : ℕ → List Bytes → Bool
all_long_enough n [] = true
all_long_enough n (s ∷ sources) = leb n (length s) && all_long_enough n sources

-- The two loops: each source goes into the first `n` bytes of the buffer.
unfoldable pub combine_into : ℕ → Bytes → List Bytes → Bytes
combine_into n combined [] = combined
combine_into n combined (s ∷ sources) = combine_into n (xor_bytes combined (take n s)) sources

unfoldable pub combine_sources : List Bytes → ℕ → Option Bytes
unfolding all_long_enough combine_into
combine_sources sources n =
    if ltb max_safe n
    then none
    else if length sources == 0
    then none
    else if all_long_enough n sources
    then some (combine_into n (zeros n) sources)
    else none

-- `combined.slice(cursor, cursor + count)`; the cursor then moves on by `count`.
abbrev pub slice_at : Bytes → ℕ → ℕ → Bytes
slice_at bytes cursor count = take count (drop cursor bytes)

unfoldable pub partition : Bytes → ℕ → ℕ → Option PairSlices
partition combined capacity records = do
  n ← required_source_length capacity records
  let auth = auth_record_bytes * records
  let slices : PairSlices = record {
    ab_encryption = slice_at combined 0 capacity;
    ab_authentication = slice_at combined capacity auth;
    ba_encryption = slice_at combined (capacity + auth) capacity;
    ba_authentication = slice_at combined (capacity + auth + capacity) auth;
  }
  (if length combined == n then some slices else none)

pub record AuthRecord : Type 0 where
  pub key : Bytes
  pub mask : Bytes

unfoldable pub auth_record_at : Bytes → ℕ → Option AuthRecord
auth_record_at auth_slice sequence =
    let start = sequence * auth_record_bytes in
    if ltb max_safe sequence
    then none
    else if ltb (length auth_slice) (start + auth_record_bytes)
    then none
    else some (record {
      key = slice_at auth_slice start key_bytes;
      mask = slice_at auth_slice (start + key_bytes) (auth_record_bytes - key_bytes);
    })
