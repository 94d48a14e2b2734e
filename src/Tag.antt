-- ===== src/Tag.antt =====
-- wc-one-time-v1: the canonical bytes of a record, its hash and its tag, src/core/wc-one-time.ts.
-- An exception on a domain violation is `none`.
mod Tests
pub mod Layout
pub mod Injective
pub mod Verify
use true_pad.Base.Buffer.{set_bytes, le_bytes, zeros}
use true_pad.Base.Xor.{xor_bytes}
use true_pad.Field.{polyval}
use true_pad.Direction.{Direction, a_to_b, b_to_a}
use true_pad.Base.{
  ℕ, zero, suc, ◌+◌, ◌-◌, ◌*◌, ◌/◌, ◌%◌, ◌^◌, ◌≤◌, ◌<◌, ◌≡◌, ◌≢◌, ◌↔◌, ◌⊎◌, inl, inr, refl, sym, ap,
  ap₂, subst, ◌∙◌, bit_and, bit_or, bit_xor, true, false, not, ◌&&◌, ◌||◌, List, [], ◌∷◌, ◌++◌,
  Bool, Option, none, some, arith, Bytes, IsByte, IsBytes, All, length, take, drop, replicate,
  get_elem?, get_or, ◌==◌, ltb, leb, if◌then◌else◌, ◌>>=◌, min, max, Bool-cases, Option-cases,
  codes, max_safe, same, append-nil, append_assoc, map,
}

abbrev pub max_ciphertext_bytes : ℕ
max_ciphertext_bytes = 1048576

abbrev pub auth_record_bytes : ℕ
auth_record_bytes = 32

abbrev pub tag_bytes : ℕ
tag_bytes = 16

abbrev pub canonical_header_bytes : ℕ
canonical_header_bytes = 64

-- ASCII `wc-one-time-v1` and two zeros.
abbrev pub domain_separator : Bytes
domain_separator =
    0x77 ∷ 0x63 ∷ 0x2d ∷ 0x6f ∷ 0x6e ∷ 0x65 ∷ 0x2d ∷ 0x74 ∷ 0x69 ∷ 0x6d ∷ 0x65 ∷ 0x2d ∷ 0x76 ∷ 0x31
    ∷ 0x00 ∷ 0x00 ∷ []

pub record CanonicalFields : Type 0 where
  pub pair_id : Bytes
  pub direction : Direction
  pub sequence : ℕ
  pub start_offset : ℕ
  pub ciphertext : Bytes

-- A safe integer as eight bytes in the buffer, least significant first.
unfoldable pub u64le : Bytes → ℕ → ℕ → Option Bytes
u64le buffer offset value =
    if ltb max_safe value then none else some (set_bytes buffer offset (le_bytes 8 value))

abbrev pub direction_byte : Direction → ℕ
direction_byte a_to_b = 0x00
direction_byte b_to_a = 0x01

-- `Math.ceil(n / 16) * 16`.
abbrev pub padded_length : ℕ → ℕ
padded_length n = (n + 15) / 16 * 16

unfoldable pub canonical_bytes : CanonicalFields → Option Bytes
unfolding u64le
canonical_bytes f =
    if not (length f.pair_id == 16)
    then none
    else if ltb max_ciphertext_bytes (length f.ciphertext)
    then none
    else (do
      let blank = zeros (canonical_header_bytes + padded_length (length f.ciphertext))
      let named = set_bytes (set_bytes blank 0 domain_separator) 16 f.pair_id
      let versioned =
          set_bytes (set_bytes named 32 (0x02 ∷ [])) 33 (direction_byte f.direction ∷ [])
      sequenced ← u64le versioned 40 f.sequence
      placed ← u64le sequenced 48 f.start_offset
      sized ← u64le placed 56 (length f.ciphertext)
      some (set_bytes sized canonical_header_bytes f.ciphertext))

unfoldable pub wc_hash : Bytes → CanonicalFields → Option Bytes
wc_hash key fields = do m ← canonical_bytes fields; polyval key m

unfoldable pub wc_tag : Bytes → Bytes → CanonicalFields → Option Bytes
wc_tag key mask fields =
    if not (length mask == tag_bytes)
    then none
    else (do hash ← wc_hash key fields; some (xor_bytes hash mask))

-- The accumulator loop of `tagsEqual` over both tags.
unfoldable pub diff_bits : ℕ → Bytes → Bytes → ℕ
diff_bits diff [] b = diff
diff_bits diff (x ∷ a) [] = diff
diff_bits diff (x ∷ a) (y ∷ b) = diff_bits (bit_or diff (bit_xor x y)) a b

unfoldable pub tags_equal : Bytes → Bytes → Bool
unfolding diff_bits
tags_equal a b =
    if not (length a == tag_bytes) || not (length b == tag_bytes)
    then false
    else diff_bits 0 a b == 0
