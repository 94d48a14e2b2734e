-- ===== src/Partition/Combine.antt =====
-- What combining the sources gives.

use true_pad.Base.{length-take_le, All-take, All-replicate}
use true_pad.Base.Bits.{zero-bit_xor}
use true_pad.Base.Buffer.{zeros, length-zeros}
use true_pad.Base.Xor.{
  xor_bytes, length-xor_bytes, xor_bytes-IsBytes, xor_bytes_comm, xor_bytes_assoc,
}
use true_pad.Partition.{all_long_enough, combine_into, combine_sources}
use true_pad.Base.{
  ℕ, zero, suc, ◌≤◌, ◌≡◌, refl, ap, ap₂, ◌∙◌, true, List, [], ◌∷◌, some, arith, Bytes, IsByte,
  IsBytes, All, length, take, max_safe,
}

zeros-xor_bytes : (n : ℕ) (a : Bytes) → length a ≡ n → xor_bytes (zeros n) a ≡ a
zeros-xor_bytes zero [] e = refl
zeros-xor_bytes zero (x ∷ a) e = absurd (omega arith)
zeros-xor_bytes (suc n) [] e = absurd (omega arith)
zeros-xor_bytes (suc n) (x ∷ a) e = ap₂ ◌∷◌ (zero-bit_xor x) (zeros-xor_bytes n a (omega arith))

combine_into-length :
    (n : ℕ) (c : Bytes) (ss : List Bytes)
    → all_long_enough n ss ≡ true
    → length c ≡ n
    → length (combine_into n c ss) ≡ n
unfolding combine_into all_long_enough
combine_into-length n c [] h l = l
combine_into-length n c (s ∷ ss) h l =
    let long : n ≤ length s = ground arith in
    combine_into-length n (xor_bytes c (take n s)) ss (ground arith)
      (omega (arith, length-xor_bytes c (take n s) (omega (arith, length-take_le n s long))))

combine_into-IsBytes :
    (n : ℕ) (c : Bytes) (ss : List Bytes)
    → IsBytes c
    → All IsBytes ss
    → IsBytes (combine_into n c ss)
unfolding combine_into
combine_into-IsBytes n c [] p q = p
combine_into-IsBytes n c (s ∷ ss) p q =
    combine_into-IsBytes n (xor_bytes c (take n s)) ss
      (xor_bytes-IsBytes c (take n s) p (All-take IsByte n s q.0)) q.1

-- The sources' part may be put together first.
combine_into-start :
    (n : ℕ) (c d : Bytes) (ss : List Bytes)
    → combine_into n (xor_bytes c d) ss ≡ xor_bytes c (combine_into n d ss)
unfolding combine_into
combine_into-start n c d [] = refl
combine_into-start n c d (s ∷ ss) =
    ap (λ t. combine_into n t ss) (xor_bytes_assoc c d (take n s))
    ∙ combine_into-start n c (xor_bytes d (take n s)) ss

-- Combining sources that are all long enough, at least one of them, gives as many bytes as were
-- asked for.
pub combine_sources_total :
    (s : Bytes) (ss : List Bytes) (n : ℕ)
    → n ≤ max_safe
    → All IsBytes (s ∷ ss)
    → all_long_enough n (s ∷ ss) ≡ true
    → (m : Bytes) × (combine_sources (s ∷ ss) n ≡ some m) × (length m ≡ n) × IsBytes m
unfolding combine_sources
combine_sources_total s ss n small ok long = (
  combine_into n (zeros n) (s ∷ ss),
  ground arith,
  combine_into-length n (zeros n) (s ∷ ss) long (length-zeros n),
  combine_into-IsBytes n (zeros n) (s ∷ ss) (All-replicate IsByte n 0 (omega arith)) ok,
)

combine_into-cons :
    (n : ℕ) (s : Bytes) (ss : List Bytes)
    → n ≤ length s
    → combine_into n (zeros n) (s ∷ ss) ≡ xor_bytes (take n s) (combine_into n (zeros n) ss)
unfolding combine_into
combine_into-cons n s ss long =
    ap (λ t. combine_into n t ss) (xor_bytes_comm (zeros n) (take n s))
    ∙ combine_into-start n (take n s) (zeros n) ss

combine_inv :
    (t : Bytes) (ss : List Bytes) (n : ℕ) (m : Bytes)
    → combine_sources (t ∷ ss) n ≡ some m
    → (n ≤ max_safe) × (all_long_enough n (t ∷ ss) ≡ true) × (combine_into n (zeros n) (t ∷ ss) ≡ m)
unfolding combine_sources
combine_inv t ss n m h = ground arith

all_long_enough-cons :
    (n : ℕ) (s : Bytes) (ss : List Bytes)
    → n ≤ length s
    → all_long_enough n ss ≡ true
    → all_long_enough n (s ∷ ss) ≡ true
unfolding all_long_enough
all_long_enough-cons n s ss long rest = ground arith

combine_succeeds :
    (s : Bytes) (ss : List Bytes) (n : ℕ)
    → n ≤ max_safe
    → all_long_enough n (s ∷ ss) ≡ true
    → combine_sources (s ∷ ss) n ≡ some (combine_into n (zeros n) (s ∷ ss))
unfolding combine_sources
combine_succeeds s ss n small long = ground arith

-- One more source, long enough, is one more exclusive or of its first bytes: it is put on the
-- combination of the others as a one-time pad is.
pub combine_sources-cons :
    (s t : Bytes) (ss : List Bytes) (n : ℕ) (m : Bytes)
    → combine_sources (t ∷ ss) n ≡ some m
    → n ≤ length s
    → combine_sources (s ∷ t ∷ ss) n ≡ some (xor_bytes (take n s) m)
combine_sources-cons s t ss n m h long =
    let (small, rest, e) = combine_inv t ss n m h in
    combine_succeeds s (t ∷ ss) n small (all_long_enough-cons n s (t ∷ ss) long rest)
    ∙ ap some (combine_into-cons n s (t ∷ ss) long ∙ ap (xor_bytes (take n s)) e)
