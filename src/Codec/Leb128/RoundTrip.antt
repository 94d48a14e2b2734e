-- ===== src/Codec/Leb128/RoundTrip.antt =====
-- Every safe integer is read back from its LEB128 bytes, with whatever follows them.
use native.Mathlib.Numerals.{towards_suc}
use true_pad.Base.Bits.{mask7, bit_or_high}
use true_pad.Codec.Leb128.{
  write_groups, write_uleb128, found, last_group, read_groups, read_uleb128,
}
use true_pad.Base.{
  ℕ, zero, suc, ◌+◌, ◌*◌, ◌/◌, ◌%◌, ◌^◌, ◌≤◌, ◌<◌, ◌≡◌, refl, ap, ◌∙◌, bit_and, bit_or, true, false,
  ◌&&◌, [], ◌∷◌, ◌++◌, Bool, arith, Bytes, ◌==◌, ltb, leb, if◌then◌else◌, max_safe, dec_lt,
}

pub pow-add_seven : (s : ℕ) → 2 ^ (s + 7) ≡ 128 * 2 ^ s
pow-add_seven s = simp towards_suc (omega arith)

flag_at : ℕ → Bool
flag_at n = if bit_and n 128 == 0 then ltb n 128 else leb 128 n

all_flags : ℕ → Bool
all_flags zero = true
all_flags (suc n) = flag_at n && all_flags n

all_flags_sound : (n b : ℕ) → all_flags n ≡ true → b < n → flag_at b ≡ true
unfolding all_flags
all_flags_sound zero b h lt = absurd (omega arith)
all_flags_sound (suc n) b h lt = ground (arith, all_flags_sound n b)

flag_ok : (b : ℕ) → b < 256 → flag_at b ≡ true
flag_ok b h = all_flags_sound 256 b table h
  where
    table : all_flags 256 ≡ true
    table = unfold all_flags flag_at in refl

pub flag_clear : (b : ℕ) → b < 128 → (bit_and b 128 == 0) ≡ true
unfolding flag_at
flag_clear b h = ground (arith, flag_ok b)

pub flag_set : (b : ℕ) → 128 ≤ b → b < 256 → (bit_and b 128 == 0) ≡ false
unfolding flag_at
flag_set b h k = ground (arith, flag_ok b)

pub group_more : (v : ℕ) → bit_or (bit_and v 127) 128 ≡ 128 + v % 128
group_more v = rw mask7 (bit_or_high 7 1 (v % 128) (omega arith))

pub write_last : (k v : ℕ) → v < 128 → write_groups (suc k) v ≡ v ∷ []
unfolding write_groups
write_last k v h = ground (arith, mask7 v)

pub write_more :
    (k v : ℕ) → 128 ≤ v → write_groups (suc k) v ≡ (128 + v % 128) ∷ write_groups k (v / 128)
unfolding write_groups
write_more k v h = ground (arith, group_more v)

-- The value that a group adds.
pub add_group :
    (value shift b : ℕ)
    → value < 2 ^ shift
    → bit_or value (bit_and b 127 * 2 ^ shift) ≡ b % 128 * 2 ^ shift + value
add_group value shift b h = rw mask7 (bit_or_high shift (b % 128) value h)

-- Reading one group that is not the last.
pub read_more :
    (count value shift b : ℕ) (bs : Bytes)
    → 128 ≤ b
    → b < 256
    → value < 2 ^ shift
    → shift + 7 ≤ 63
    → read_groups count value shift (b ∷ bs)
      ≡ read_groups (count + 1) (b % 128 * 2 ^ shift + value) (shift + 7) bs
unfolding read_groups
read_more count value shift b bs h k fits s =
    rw (flag_set b h k, add_group value shift b fits) (ground arith)

pub read_last :
    (count value shift b : ℕ) (bs : Bytes)
    → b < 128
    → value < 2 ^ shift
    → read_groups count value shift (b ∷ bs) ≡ last_group count b (b % 128 * 2 ^ shift + value) bs
unfolding read_groups
read_last count value shift b bs h fits = rw (flag_clear b h, add_group value shift b fits) refl

-- 128 to the power of the groups that are left.
abbrev pub capacity : ℕ → ℕ
capacity zero = 1
capacity (suc n) = 128 * capacity n

pub carry_sum :
    (v shift value : ℕ)
    → v / 128 * 2 ^ (shift + 7) + (v % 128 * 2 ^ shift + value) ≡ v * 2 ^ shift + value
carry_sum v shift value =
    let whole : v / 128 * 128 + v % 128 ≡ v = omega arith in
    omega (
      arith,
      ap (λ (t : ℕ). v / 128 * t) (pow-add_seven shift),
      ap (λ (t : ℕ). t * 2 ^ shift) whole,
    )

pub carry_fits :
    (b shift value : ℕ) → value < 2 ^ shift → b % 128 * 2 ^ shift + value < 2 ^ (shift + 7)
carry_fits b shift value h =
    let d : b % 128 ≤ 127 = omega arith in
    let m : b % 128 * 2 ^ shift ≤ 127 * 2 ^ shift = grind arith in
    omega (arith, pow-add_seven shift)

last_lem :
    (count v value : ℕ) (rest : Bytes)
    → (0 < count → 0 < v)
    → value ≤ max_safe
    → last_group count v value rest ≡ found value rest
unfolding last_group
last_lem count v value rest lead small = ground arith

read-write_groups :
    (n k v count value shift : ℕ) (rest : Bytes)
    → v < k
    → v < capacity n
    → shift + 7 * n ≤ 63
    → value < 2 ^ shift
    → (0 < count → 0 < v)
    → v * 2 ^ shift + value ≤ max_safe
    → read_groups count value shift (write_groups k v ++ rest) ≡ found (v * 2 ^ shift + value) rest
read-write_groups n zero v count value shift rest vk vn room fits lead small = absurd (omega arith)
read-write_groups zero (suc k) v count value shift rest vk vn room fits lead small =
    let e : v ≡ 0 = omega arith in
    let d : v % 128 ≡ v = omega arith in
    rw (write_last k v (omega arith), read_last count value shift v rest (omega arith) fits, d)
      (last_lem count v _ rest lead small)
read-write_groups (suc n) (suc k) v count value shift rest vk vn room fits lead small =
    elim (dec_lt v 128) [
      | yes h ↦
          let d : v % 128 ≡ v = omega arith in
          rw (write_last k v h, read_last count value shift v rest h fits, d)
            (last_lem count v _ rest lead small)
      | no h ↦
          let d : (128 + v % 128) % 128 ≡ v % 128 = omega arith in
          rw
            (
              write_more k v (omega arith),
              read_more count value shift (128 + v % 128) (write_groups k (v / 128) ++ rest)
                  (omega arith) (omega arith) fits (omega arith),
              d,
            )
            (read-write_groups n k (v / 128) (count + 1) (v % 128 * 2 ^ shift + value) (shift + 7)
                rest (omega arith) (omega arith) (omega arith) (carry_fits v shift value fits)
                (λ _. omega arith) (omega (arith, carry_sum v shift value))
              ∙ ap (λ t. found t rest) (carry_sum v shift value))
    ]

-- Reading what was written gives the number back and leaves what follows it unread.
pub read_uleb128-write_uleb128 :
    (v : ℕ) (rest : Bytes) → v ≤ max_safe → read_uleb128 (write_uleb128 v ++ rest) ≡ found v rest
unfolding read_uleb128 write_uleb128
read_uleb128-write_uleb128 v rest small =
    let e : v * 2 ^ 0 + 0 ≡ v = omega arith in
    read-write_groups 8 (suc v) v 0 0 0 rest (omega arith) (omega arith) (omega arith) (omega arith)
      (λ h. absurd (omega arith)) (omega arith)
    ∙ ap (λ t. found t rest) e
