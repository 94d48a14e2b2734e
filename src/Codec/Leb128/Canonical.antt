-- ===== src/Codec/Leb128/Canonical.antt =====
-- The reader accepts no spelling but the writer's.
use true_pad.Codec.Leb128.{
  write_groups, write_uleb128, found, last_group, read_groups, read_uleb128,
}
use true_pad.Codec.Leb128.RoundTrip.{
  flag_set, add_group, write_last, write_more, read_last, carry_sum, carry_fits,
}
use true_pad.Base.{
  ℕ, zero, suc, ◌+◌, ◌*◌, ◌/◌, ◌%◌, ◌^◌, ◌≤◌, ◌<◌, ◌≡◌, sym, ap, ◌∙◌, [], ◌∷◌, ◌++◌, arith, Bytes,
  IsBytes, max_safe, dec_lt,
}

last_inv :
    (count b value r : ℕ) (bs rest : Bytes)
    → last_group count b value bs ≡ found r rest
    → (r ≡ value) × (bs ≡ rest) × (0 < count → 0 < b) × (r ≤ max_safe)
unfolding last_group
last_inv count b value r bs rest h = ground arith

more_inv :
    (count value shift b r : ℕ) (bs rest : Bytes)
    → 128 ≤ b
    → b < 256
    → value < 2 ^ shift
    → read_groups count value shift (b ∷ bs) ≡ found r rest
    → read_groups (count + 1) (b % 128 * 2 ^ shift + value) (shift + 7) bs ≡ found r rest
unfolding read_groups
more_inv count value shift b r bs rest h k fits e =
    ground (arith, flag_set b h k, add_group value shift b fits)

-- What a successful read says of the bytes: they are the writer's for some `v`, then `rest`.
record Spelled (bs : Bytes) (count value shift r : ℕ) (rest : Bytes) : Type 0 where
  v : ℕ
  sum : r ≡ v * 2 ^ shift + value
  lead : 0 < count → 0 < v
  spelling : (k : ℕ) → v < k → bs ≡ write_groups k v ++ rest
  safe : r ≤ max_safe

last_spelling : (b k : ℕ) (bs : Bytes) → b < 128 → b < k → b ∷ bs ≡ write_groups k b ++ bs
last_spelling b zero bs h lt = absurd (omega arith)
last_spelling b (suc k) bs h lt = rw (write_last k b h)

more_spelling :
    (b v k : ℕ) (bs rest : Bytes)
    → 128 ≤ b
    → b < 256
    → 0 < v
    → v * 128 + b % 128 < k
    → ((j : ℕ) → v < j → bs ≡ write_groups j v ++ rest)
    → b ∷ bs ≡ write_groups k (v * 128 + b % 128) ++ rest
more_spelling b v zero bs rest h hi pos lt ih = absurd (omega arith)
more_spelling b v (suc k) bs rest h hi pos lt ih =
    let low : 128 + (v * 128 + b % 128) % 128 ≡ b = omega arith in
    let high : (v * 128 + b % 128) / 128 ≡ v = omega arith in
    rw (write_more k (v * 128 + b % 128) (omega arith), low, high) (ap (◌∷◌ b) (ih k (omega arith)))

read-Spelled :
    (bs : Bytes) (count value shift r : ℕ) (rest : Bytes)
    → IsBytes bs
    → value < 2 ^ shift
    → read_groups count value shift bs ≡ found r rest
    → Spelled bs count value shift r rest
read-Spelled [] count value shift r rest ok fits h = absurd (unfold read_groups in (cc))
read-Spelled (b ∷ bs) count value shift r rest ok fits h = elim (dec_lt b 128) [
  | yes small ↦
      let e : last_group count b (b % 128 * 2 ^ shift + value) bs ≡ found r rest =
        sym (read_last count value shift b bs small fits) ∙ h in
      let (sum, same_rest, lead, safe) = last_inv count b _ r bs rest e in
      let m : b % 128 ≡ b = omega arith in
      record {
        v = b;
        sum = sum ∙ ap (λ t. t * 2 ^ shift + value) m;
        lead = lead;
        spelling = λ k lt. rw (← same_rest) (last_spelling b k bs small lt);
        safe = safe;
      }
  | no big ↦
      let e = more_inv count value shift b r bs rest (omega arith) ok.0 fits h in
      let s =
        read-Spelled bs (count + 1) (b % 128 * 2 ^ shift + value) (shift + 7) r rest ok.1
          (carry_fits b shift value fits) e in
      let pos : 0 < s.v = s.lead (omega arith) in
      let low : (s.v * 128 + b % 128) % 128 ≡ b % 128 = omega arith in
      let high : (s.v * 128 + b % 128) / 128 ≡ s.v = omega arith in
      let sums : s.v * 2 ^ (shift + 7) + (b % 128 * 2 ^ shift + value)
          ≡ (s.v * 128 + b % 128) * 2 ^ shift + value =
        rw (low, high) at (carry_sum (s.v * 128 + b % 128) shift value) in
      record {
        v = s.v * 128 + b % 128;
        sum = s.sum ∙ sums;
        lead = λ _. omega arith;
        spelling = λ k lt. more_spelling b s.v k bs rest (omega arith) ok.0 pos lt s.spelling;
        safe = s.safe;
      }
]

-- An accepted varint is the writer's spelling of its value, which is a safe integer.
pub read_uleb128_canonical :
    (bs : Bytes) (v : ℕ) (rest : Bytes)
    → IsBytes bs
    → read_uleb128 bs ≡ found v rest
    → (bs ≡ write_uleb128 v ++ rest) × (v ≤ max_safe)
unfolding read_uleb128 write_uleb128
read_uleb128_canonical bs v rest ok h =
    let s = read-Spelled bs 0 0 0 v rest ok (omega arith) h in
    let e : s.v ≡ v = omega (arith, s.sum) in
    (s.spelling (suc v) (omega arith) ∙ ap (λ t. write_groups (suc v) t ++ rest) e, s.safe)
