-- ===== src/Partition/Slices.antt =====
-- Every byte of the material lands in exactly one slice, and every slice byte in one record.
use true_pad.Base.{length-take_le, length-drop, take-append-drop, take_all, drop_all}
use true_pad.Partition.{
  PairSlices, AuthRecord, slice_at, required_source_length, partition, auth_record_at,
}
use true_pad.Base.{
  ℕ, zero, suc, ◌+◌, ◌*◌, ◌≤◌, ◌≡◌, refl, sym, ap, ap₂, ◌∙◌, [], ◌∷◌, ◌++◌, Option, some, arith,
  Bytes, length, drop, ◌>>=◌, max_safe,
}

drop-nil : (n : ℕ) → drop {A = ℕ} n [] ≡ []
drop-nil zero = refl
drop-nil (suc n) = refl

drop-drop : (m n k : ℕ) (xs : Bytes) → m + n ≡ k → drop n (drop m xs) ≡ drop k xs
drop-drop zero n k xs e = ap (λ t. drop t xs) (omega arith)
drop-drop (suc m) n zero xs e = absurd (omega arith)
drop-drop (suc m) n (suc k) [] e = drop-nil n
drop-drop (suc m) n (suc k) (x ∷ xs) e = drop-drop m n k xs (omega arith)

-- A slice and what follows it.
slice-rest :
    (xs : Bytes) (at count next : ℕ)
    → at + count ≡ next
    → slice_at xs at count ++ drop next xs ≡ drop at xs
slice-rest xs at count next e =
    ap (λ t. slice_at xs at count ++ t) (sym (drop-drop at count next xs e))
    ∙ take-append-drop count (drop at xs)

length-slice_at :
    (xs : Bytes) (at count : ℕ) → at + count ≤ length xs → length (slice_at xs at count) ≡ count
length-slice_at xs at count h = length-take_le count (drop at xs) (omega (arith, length-drop at xs))

partition_inv :
    (combined : Bytes) (capacity records : ℕ) (s : PairSlices)
    → partition combined capacity records ≡ some s
    → (length combined ≡ 2 * (capacity + 32 * records))
      × (s.ab_encryption ≡ slice_at combined 0 capacity)
      × (s.ab_authentication ≡ slice_at combined capacity (32 * records))
      × (s.ba_encryption ≡ slice_at combined (capacity + 32 * records) capacity)
      × (s.ba_authentication
          ≡ slice_at combined (capacity + 32 * records + capacity) (32 * records))
unfolding partition required_source_length
partition_inv combined capacity records s h = ground arith

-- The four slices, in order, spell the material, and have the two budgets for lengths: each byte of
-- the material is in one slice, at one place.
pub partition_covers :
    (combined : Bytes) (capacity records : ℕ) (s : PairSlices)
    → partition combined capacity records ≡ some s
    → (s.ab_encryption ++ (s.ab_authentication ++ (s.ba_encryption ++ s.ba_authentication))
        ≡ combined)
      × (length s.ab_encryption ≡ capacity)
      × (length s.ab_authentication ≡ 32 * records)
      × (length s.ba_encryption ≡ capacity)
      × (length s.ba_authentication ≡ 32 * records)
partition_covers combined capacity records s h =
    let a = 32 * records in
    let (n, e1, e2, e3, e4) = partition_inv combined capacity records s h in
    let last : slice_at combined (capacity + a + capacity) a
        ≡ drop (capacity + a + capacity) combined =
      take_all a _ (omega (arith, length-drop (capacity + a + capacity) combined)) in
    (
      ap₂ ◌++◌ e1 (ap₂ ◌++◌ e2 (ap₂ ◌++◌ e3 (e4 ∙ last)))
          ∙ ap (λ t. slice_at combined 0 capacity ++ (slice_at combined capacity a ++ t))
              (slice-rest combined (capacity + a) capacity (capacity + a + capacity) refl)
          ∙ ap (λ t. slice_at combined 0 capacity ++ t)
              (slice-rest combined capacity a (capacity + a) refl)
          ∙ slice-rest combined 0 capacity capacity (omega arith),
      ap length e1 ∙ length-slice_at combined 0 capacity (omega arith),
      ap length e2 ∙ length-slice_at combined capacity a (omega arith),
      ap length e3 ∙ length-slice_at combined (capacity + a) capacity (omega arith),
      ap length e4 ∙ length-slice_at combined (capacity + a + capacity) a (omega arith),
    )

-- The records from number `first` on, keys and masks one after the other.
abbrev pub records_from : Bytes → ℕ → ℕ → Option Bytes
records_from auth_slice first zero = some []
records_from auth_slice first (suc n) = do
  r ← auth_record_at auth_slice first
  rest ← records_from auth_slice (first + 1) n
  some (r.key ++ (r.mask ++ rest))

record_parts :
    (xs : Bytes) (s : ℕ)
    → s ≤ max_safe
    → s * 32 + 32 ≤ length xs
    → (r : AuthRecord) × (auth_record_at xs s ≡ some r)
      × (r.key ++ (r.mask ++ drop (s * 32 + 32) xs) ≡ drop (s * 32) xs)
unfolding auth_record_at
record_parts xs s small fits = (
  record { key = slice_at xs (s * 32) 16; mask = slice_at xs (s * 32 + 16) 16 },
  ground arith,
  ap (λ t. slice_at xs (s * 32) 16 ++ t)
        (slice-rest xs (s * 32 + 16) 16 (s * 32 + 32) (omega arith))
      ∙ slice-rest xs (s * 32) 16 (s * 32 + 16) refl,
)

records_from_rest :
    (n first : ℕ) (xs : Bytes)
    → length xs ≡ 32 * (first + n)
    → first + n ≤ max_safe
    → records_from xs first n ≡ some (drop (first * 32) xs)
records_from_rest zero first xs l small = ap some (sym (drop_all (first * 32) xs (omega arith)))
records_from_rest (suc n) first xs l small =
    let (r, e, parts) = record_parts xs first (omega arith) (omega arith) in
    let rest = records_from_rest n (first + 1) xs (omega arith) (omega arith) in
    let next : (first + 1) * 32 ≡ first * 32 + 32 = omega arith in
    rw (e, rest) (ap some (ap (λ t. r.key ++ (r.mask ++ drop t xs)) next ∙ parts))

-- The records of an authentication slice, each a key and then a mask, spell the slice: no byte of it
-- is in two records, or in none.
pub auth_records_cover :
    (auth_slice : Bytes) (records : ℕ)
    → length auth_slice ≡ 32 * records
    → records ≤ max_safe
    → records_from auth_slice 0 records ≡ some auth_slice
auth_records_cover auth_slice records l small =
    records_from_rest records 0 auth_slice (omega arith) (omega arith)
