-- ===== src/Base/Xor.antt =====
-- The byte-by-byte exclusive or of two byte strings, the loop `out[i] = a[i] ^ b[i]`.
use Prim.Native.Nat.{ℕ, zero, suc, ◌≤◌, bit_xor}
use mathlib.Core.Path.{◌≡◌, refl, ap, ap₂}
use mathlib.Core.List.{[], ◌∷◌}
use native.Mathlib.Omega.{arith}
use true_pad.Base.Lists.{take, drop, length}
use true_pad.Base.Octets.{Bytes, IsBytes}
use true_pad.Base.Bits.{bit_xor_comm, bit_xor_assoc, bit_xor_cancel, bit_xor_mask, bit_xor-lt}

-- Over the bytes that both have.
abbrev pub xor_bytes : Bytes → Bytes → Bytes
xor_bytes [] bs = []
xor_bytes (a ∷ as') [] = []
xor_bytes (a ∷ as') (b ∷ bs) = bit_xor a b ∷ xor_bytes as' bs

pub length-xor_bytes : (a b : Bytes) → length a ≤ length b → length (xor_bytes a b) ≡ length a
length-xor_bytes [] b h = refl
length-xor_bytes (x ∷ a) [] h = absurd (omega arith)
length-xor_bytes (x ∷ a) (y ∷ b) h = ap suc (length-xor_bytes a b (omega arith))

pub xor_bytes-IsBytes : (a b : Bytes) → IsBytes a → IsBytes b → IsBytes (xor_bytes a b)
xor_bytes-IsBytes [] b p q = tt
xor_bytes-IsBytes (x ∷ a) [] p q = tt
xor_bytes-IsBytes (x ∷ a) (y ∷ b) p q = (bit_xor-lt 8 x y p.0 q.0, xor_bytes-IsBytes a b p.1 q.1)

pub xor_bytes_comm : (a b : Bytes) → xor_bytes a b ≡ xor_bytes b a
xor_bytes_comm [] [] = refl
xor_bytes_comm [] (y ∷ b) = refl
xor_bytes_comm (x ∷ a) [] = refl
xor_bytes_comm (x ∷ a) (y ∷ b) = ap₂ ◌∷◌ (bit_xor_comm x y) (xor_bytes_comm a b)

pub xor_bytes_assoc : (a b c : Bytes) → xor_bytes (xor_bytes a b) c ≡ xor_bytes a (xor_bytes b c)
xor_bytes_assoc [] b c = refl
xor_bytes_assoc (x ∷ a) [] c = refl
xor_bytes_assoc (x ∷ a) (y ∷ b) [] = refl
xor_bytes_assoc (x ∷ a) (y ∷ b) (z ∷ c) = ap₂ ◌∷◌ (bit_xor_assoc x y z) (xor_bytes_assoc a b c)

-- A pad that is put on twice is off again.
pub xor_bytes_cancel : (a k : Bytes) → length a ≤ length k → xor_bytes (xor_bytes a k) k ≡ a
xor_bytes_cancel [] k h = refl
xor_bytes_cancel (x ∷ a) [] h = absurd (omega arith)
xor_bytes_cancel (x ∷ a) (y ∷ k) h =
    ap₂ ◌∷◌ (bit_xor_cancel x y) (xor_bytes_cancel a k (omega arith))

-- One mask on two byte strings leaves their difference.
pub xor_bytes_mask :
    (a b m : Bytes)
    → length a ≤ length m
    → length b ≤ length m
    → xor_bytes (xor_bytes a m) (xor_bytes b m) ≡ xor_bytes a b
xor_bytes_mask [] b m p q = refl
xor_bytes_mask (x ∷ a) b [] p q = absurd (omega arith)
xor_bytes_mask (x ∷ a) [] (z ∷ m) p q = refl
xor_bytes_mask (x ∷ a) (y ∷ b) (z ∷ m) p q =
    ap₂ ◌∷◌ (bit_xor_mask x y z) (xor_bytes_mask a b m (omega arith) (omega arith))

pub take-xor_bytes :
    (n : ℕ) (a b : Bytes) → take n (xor_bytes a b) ≡ xor_bytes (take n a) (take n b)
take-xor_bytes zero a b = refl
take-xor_bytes (suc n) [] b = refl
take-xor_bytes (suc n) (x ∷ a) [] = refl
take-xor_bytes (suc n) (x ∷ a) (y ∷ b) = ap (◌∷◌ (bit_xor x y)) (take-xor_bytes n a b)

pub drop-xor_bytes :
    (n : ℕ) (a b : Bytes)
    → length a ≡ length b
    → drop n (xor_bytes a b) ≡ xor_bytes (drop n a) (drop n b)
drop-xor_bytes zero a b e = refl
drop-xor_bytes (suc n) [] b e = refl
drop-xor_bytes (suc n) (x ∷ a) [] e = absurd (omega arith)
drop-xor_bytes (suc n) (x ∷ a) (y ∷ b) e = drop-xor_bytes n a b (omega arith)
