-- ===== src/Base/Buffer.antt =====
-- Writes into a zeroed `Uint8Array`, and little-endian integers.
use Prim.Native.Nat.{ℕ, zero, suc, ◌+◌, ◌*◌, ◌/◌, ◌%◌, ◌<◌}
use mathlib.Core.Path.{◌≡◌, refl, ap, ap₂, sym, ◌∙◌}
use mathlib.Core.List.{[], ◌∷◌, ◌++◌, append_assoc}
use native.Mathlib.Omega.{arith}
use true_pad.Base.Lists.{
  take, drop, length, replicate, length-replicate, take-append, drop-append, length-append,
}
use true_pad.Base.Octets.{Bytes, IsBytes}

suc-add : (m n : ℕ) → suc m + n ≡ suc (m + n)
suc-add m n = omega arith

-- `buffer.set(src, offset)` with the whole of `src` inside the buffer.
unfoldable pub set_bytes : Bytes → ℕ → Bytes → Bytes
set_bytes buffer offset src = take offset buffer ++ (src ++ drop (offset + length src) buffer)

-- `n` bytes of `v`, least significant first; what does not fit is dropped.
abbrev pub le_bytes : ℕ → ℕ → Bytes
le_bytes zero v = []
le_bytes (suc n) v = v % 256 ∷ le_bytes n (v / 256)

abbrev pub le_value : Bytes → ℕ
le_value [] = 0
le_value (b ∷ bs) = b + 256 * le_value bs

-- A write that fills a gap exactly.
pub set_bytes_gap :
    (before gap after src : Bytes) (offset : ℕ)
    → offset ≡ length before
    → length gap ≡ length src
    → set_bytes (before ++ (gap ++ after)) offset src ≡ before ++ (src ++ after)
unfolding set_bytes
set_bytes_gap before gap after src offset e l =
    ap₂ (λ x y. x ++ (src ++ y)) (take-append offset before (gap ++ after) e)
      (ap (drop (offset + length src)) (sym (append_assoc before gap after))
        ∙ drop-append (offset + length src) (before ++ gap) after
            (omega (arith, length-append before gap)))

-- A write past the first part of a buffer.
pub set_bytes_skip :
    (before rest src : Bytes) (offset k : ℕ)
    → offset ≡ length before + k
    → set_bytes (before ++ rest) offset src ≡ before ++ set_bytes rest k src
unfolding set_bytes
set_bytes_skip [] rest src offset k e = ap (λ o. set_bytes rest o src) (omega arith)
set_bytes_skip (x ∷ before) rest src zero k e = absurd (omega arith)
set_bytes_skip (x ∷ before) rest src (suc offset) k e =
    ap (λ n. x ∷ (take offset (before ++ rest) ++ (src ++ drop n (x ∷ (before ++ rest)))))
      (suc-add offset (length src))
    ∙ ap (◌∷◌ x) (set_bytes_skip before rest src offset k (omega arith))

-- A fresh buffer.
abbrev pub zeros : ℕ → Bytes
zeros n = replicate n 0

pub length-zeros : (n : ℕ) → length (zeros n) ≡ n
length-zeros n = length-replicate n _

pub zeros-add : (m n k : ℕ) → k ≡ m + n → zeros k ≡ zeros m ++ zeros n
zeros-add zero n k e = ap zeros (omega arith)
zeros-add (suc m) n zero e = absurd (omega arith)
zeros-add (suc m) n (suc k) e = ap (◌∷◌ 0) (zeros-add m n k (omega arith))

pub length-le_bytes : (n v : ℕ) → length (le_bytes n v) ≡ n
length-le_bytes zero v = refl
length-le_bytes (suc n) v = ap suc (length-le_bytes n (v / 256))

pub le_bytes-IsBytes : (n v : ℕ) → IsBytes (le_bytes n v)
le_bytes-IsBytes zero v = tt
le_bytes-IsBytes (suc n) v = (omega arith, le_bytes-IsBytes n (v / 256))

-- 256 to the power of `n`.
abbrev pub byte_range : ℕ → ℕ
byte_range zero = 1
byte_range (suc n) = 256 * byte_range n

pub le_value-le_bytes : (n v : ℕ) → v < byte_range n → le_value (le_bytes n v) ≡ v
le_value-le_bytes zero v h = omega arith
le_value-le_bytes (suc n) v h = omega (arith, le_value-le_bytes n (v / 256) (omega arith))

pub le_bytes_injective :
    (n v w : ℕ) → v < byte_range n → w < byte_range n → le_bytes n v ≡ le_bytes n w → v ≡ w
le_bytes_injective n v w hv hw e =
    omega (arith, le_value-le_bytes n v hv, le_value-le_bytes n w hw, ap le_value e)

pub le_bytes-le_value : (bs : Bytes) → IsBytes bs → le_bytes (length bs) (le_value bs) ≡ bs
le_bytes-le_value [] h = refl
le_bytes-le_value (b ∷ bs) h =
    let low : (b + 256 * le_value bs) % 256 ≡ b = omega arith in
    let high : (b + 256 * le_value bs) / 256 ≡ le_value bs = omega arith in
    ap₂ ◌∷◌ low (ap (le_bytes (length bs)) high ∙ le_bytes-le_value bs h.1)

pub le_value-lt : (bs : Bytes) → IsBytes bs → le_value bs < byte_range (length bs)
le_value-lt [] h = omega arith
le_value-lt (b ∷ bs) h = omega (arith, le_value-lt bs h.1)
