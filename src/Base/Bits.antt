-- ===== src/Base/Bits.antt =====
-- Laws of the bit operations at variables. The native operations are recursions on binary digits;
-- here each gets an equation for its lowest digit, and from it the laws that the codecs, the
-- field arithmetic and the pad combiner need.
use Prim.Native.Nat.{
  ℕ, zero, suc, ◌+◌, ◌*◌, ◌/◌, ◌%◌, ◌^◌, ◌≤◌, ◌<◌, min, max, bit_and, bit_or, bit_xor, differ,
  digits, bit_and-bitwise, bit_or-bitwise, bit_xor-bitwise,
}
use mathlib.Core.Path.{◌≡◌, refl, sym, ap, ◌∙◌}
use native.Mathlib.Nat.{pow-suc}
use native.Mathlib.Omega.{arith}

-- Fuel beyond the first number changes nothing.
more_fuel :
    (z : ℕ → ℕ) (f : ℕ → ℕ → ℕ) (k n a b : ℕ) → a ≤ k → k ≤ n → digits z f n a b ≡ digits z f k a b
more_fuel z f zero zero a b fits more = refl
more_fuel z f zero (suc n) zero b fits more = refl
more_fuel z f zero (suc n) (suc a) b fits more = absurd (omega arith)
more_fuel z f (suc k) zero a b fits more = absurd (omega arith)
more_fuel z f (suc k) (suc n) zero b fits more = refl
more_fuel z f (suc k) (suc n) (suc a) b fits more =
    ap (λ d. d * 2 + f (suc a % 2) (b % 2))
      (more_fuel z f k n (suc a / 2) (b / 2) (omega arith) (omega arith))

-- One digit of a positive first number.
one_digit :
    (z : ℕ → ℕ) (f : ℕ → ℕ → ℕ) (a b : ℕ)
    → digits z f (suc a) (suc a) b
      ≡ digits z f (suc a / 2) (suc a / 2) (b / 2) * 2 + f (suc a % 2) (b % 2)
one_digit z f a b =
    ap (λ d. d * 2 + f (suc a % 2) (b % 2))
      (more_fuel z f (suc a / 2) a (suc a / 2) (b / 2) (omega arith) (omega arith))

-- The digits of an operation over a positive first number, the lowest one apart.
digits_apart :
    (z : ℕ → ℕ) (f op : ℕ → ℕ → ℕ)
    → ((x y : ℕ) → op x y ≡ digits z f x x y)
    → (x y : ℕ) → op (suc x) y ≡ op (suc x / 2) (y / 2) * 2 + f (suc x % 2) (y % 2)
digits_apart z f op means x y =
    means (suc x) y
    ∙ one_digit z f x y
    ∙ ap (λ d. d * 2 + f (suc x % 2) (y % 2)) (sym (means (suc x / 2) (y / 2)))

pub bit_or_step : (x y : ℕ) → bit_or x y ≡ 2 * bit_or (x / 2) (y / 2) + max (x % 2) (y % 2)
bit_or_step zero y = omega (arith, bit_or-bitwise zero y, bit_or-bitwise zero (y / 2))
bit_or_step (suc x) y = omega (arith, digits_apart (λ d. d) max bit_or bit_or-bitwise x y)

pub bit_and_step : (x y : ℕ) → bit_and x y ≡ 2 * bit_and (x / 2) (y / 2) + min (x % 2) (y % 2)
bit_and_step zero y = omega (arith, bit_and-bitwise zero y, bit_and-bitwise zero (y / 2))
bit_and_step (suc x) y = omega (arith, digits_apart (λ d. zero) min bit_and bit_and-bitwise x y)

xor_digit : (x y : ℕ) → x < 2 → y < 2 → differ x y ≡ (x + y) % 2
xor_digit zero y p q = omega arith
xor_digit (suc zero) zero p q = refl
xor_digit (suc zero) (suc zero) p q = refl
xor_digit (suc zero) (suc (suc y)) p q = absurd (omega arith)
xor_digit (suc (suc x)) y p q = absurd (omega arith)

xor_step_differ : (a b : ℕ) → bit_xor a b ≡ bit_xor (a / 2) (b / 2) * 2 + differ (a % 2) (b % 2)
xor_step_differ zero b = simp bit_xor-bitwise (omega arith)
xor_step_differ (suc a) b =
    bit_xor-bitwise (suc a) b
    ∙ one_digit (λ y. y) differ a b
    ∙ ap (λ d. d * 2 + differ (suc a % 2) (b % 2)) (sym (bit_xor-bitwise (suc a / 2) (b / 2)))

pub bit_xor_step : (a b : ℕ) → bit_xor a b ≡ bit_xor (a / 2) (b / 2) * 2 + (a + b) % 2
bit_xor_step a b =
    omega (arith, xor_step_differ a b, xor_digit (a % 2) (b % 2) (omega arith) (omega arith))

pub zero-bit_xor : (b : ℕ) → bit_xor 0 b ≡ b
zero-bit_xor b = bit_xor-bitwise 0 b

xor_comm_fuel : (n a b : ℕ) → a ≤ n → b ≤ n → bit_xor a b ≡ bit_xor b a
xor_comm_fuel zero a b p q = ap₂' (omega arith) (omega arith)
  where
    ap₂' : a ≡ b → b ≡ a → bit_xor a b ≡ bit_xor b a
    ap₂' e e' = rw e
xor_comm_fuel (suc n) a b p q = omega (
  arith,
  bit_xor_step a b,
  bit_xor_step b a,
  xor_comm_fuel n (a / 2) (b / 2) (omega arith) (omega arith),
)

pub bit_xor_comm : (a b : ℕ) → bit_xor a b ≡ bit_xor b a
bit_xor_comm a b = xor_comm_fuel (a + b) a b (omega arith) (omega arith)

pub bit_xor-zero : (a : ℕ) → bit_xor a 0 ≡ a
bit_xor-zero a = bit_xor_comm a 0 ∙ zero-bit_xor a

xor_self_fuel : (n a : ℕ) → a ≤ n → bit_xor a a ≡ 0
xor_self_fuel n zero p = zero-bit_xor 0
xor_self_fuel zero (suc a) p = absurd (omega arith)
xor_self_fuel (suc n) (suc a) p =
    omega (arith, bit_xor_step (suc a) (suc a), xor_self_fuel n (suc a / 2) (omega arith))

pub bit_xor_self : (a : ℕ) → bit_xor a a ≡ 0
bit_xor_self a = xor_self_fuel a a (omega arith)

xor_assoc_fuel :
    (n a b c : ℕ) → a ≤ n → b ≤ n → c ≤ n → bit_xor (bit_xor a b) c ≡ bit_xor a (bit_xor b c)
xor_assoc_fuel n zero b c p q r =
    ap (λ t. bit_xor t c) (zero-bit_xor b) ∙ sym (zero-bit_xor (bit_xor b c))
xor_assoc_fuel zero (suc a) b c p q r = absurd (omega arith)
xor_assoc_fuel (suc n) (suc a) b c p q r = omega (
  arith,
  bit_xor_step (bit_xor (suc a) b) c,
  bit_xor_step (suc a) (bit_xor b c),
  ap (λ t. bit_xor t (c / 2)) (half (suc a) b),
  ap (λ t. bit_xor (suc a / 2) t) (half b c),
  bit_xor_step (suc a) b,
  bit_xor_step b c,
  xor_assoc_fuel n (suc a / 2) (b / 2) (c / 2) (omega arith) (omega arith) (omega arith),
)
  where
    half : (x y : ℕ) → bit_xor x y / 2 ≡ bit_xor (x / 2) (y / 2)
    half x y = omega (arith, bit_xor_step x y)

pub bit_xor_assoc : (a b c : ℕ) → bit_xor (bit_xor a b) c ≡ bit_xor a (bit_xor b c)
bit_xor_assoc a b c = xor_assoc_fuel (a + b + c) a b c (omega arith) (omega arith) (omega arith)

-- A mask that is put on twice is off again.
pub bit_xor_cancel : (a b : ℕ) → bit_xor (bit_xor a b) b ≡ a
bit_xor_cancel a b = bit_xor_assoc a b b ∙ ap (bit_xor a) (bit_xor_self b) ∙ bit_xor-zero a

-- A mask on both numbers leaves their difference.
pub bit_xor_mask : (a b m : ℕ) → bit_xor (bit_xor a m) (bit_xor b m) ≡ bit_xor a b
bit_xor_mask a b m =
    bit_xor_assoc a m (bit_xor b m)
    ∙ ap (bit_xor a) (bit_xor_comm m (bit_xor b m) ∙ bit_xor_cancel b m)

-- An exclusive or of `k`-bit numbers has `k` bits.
pub bit_xor-lt : (k a b : ℕ) → a < 2 ^ k → b < 2 ^ k → bit_xor a b < 2 ^ k
bit_xor-lt zero a b p q = omega (arith, bit_xor_step a b, small a b p q)
  where
    small : (x y : ℕ) → x < 2 ^ 0 → y < 2 ^ 0 → bit_xor x y ≡ 0
    small zero zero h k = zero-bit_xor 0
    small zero (suc y) h k = absurd (omega arith)
    small (suc x) y h k = absurd (omega arith)
bit_xor-lt (suc k) a b p q =
    let d : 2 ^ suc k ≡ 2 ^ k * 2 = pow-suc 2 k in
    omega (arith, bit_xor_step a b, bit_xor-lt k (a / 2) (b / 2) (omega arith) (omega arith))

bit_and-zero : (n a : ℕ) → a ≤ n → bit_and a 0 ≡ 0
bit_and-zero n zero p = bit_and-bitwise 0 0
bit_and-zero zero (suc a) p = absurd (omega arith)
bit_and-zero (suc n) (suc a) p =
    omega (arith, bit_and_step (suc a) 0, bit_and-zero n (suc a / 2) (omega arith))

-- Masks of low ones are remainders.
pub mask1 : (a : ℕ) → bit_and a 1 ≡ a % 2
mask1 a = omega (arith, bit_and_step a 1, bit_and-zero (a / 2) (a / 2) (omega arith))

pub mask2 : (a : ℕ) → bit_and a 3 ≡ a % 4
mask2 a = omega (arith, bit_and_step a 3, mask1 (a / 2))

pub mask3 : (a : ℕ) → bit_and a 7 ≡ a % 8
mask3 a = omega (arith, bit_and_step a 7, mask2 (a / 2))

pub mask4 : (a : ℕ) → bit_and a 15 ≡ a % 16
mask4 a = omega (arith, bit_and_step a 15, mask3 (a / 2))

pub mask6 : (a : ℕ) → bit_and a 63 ≡ a % 64
mask6 a = omega (arith, bit_and_step a 63, bit_and_step (a / 2) 31, mask4 (a / 2 / 2))

pub mask7 : (a : ℕ) → bit_and a 127 ≡ a % 128
mask7 a = omega (arith, bit_and_step a 127, mask6 (a / 2))

pub mask8 : (a : ℕ) → bit_and a 255 ≡ a % 256
mask8 a = omega (arith, bit_and_step a 255, mask7 (a / 2))

or_zero_fuel : (n a : ℕ) → a ≤ n → bit_or a 0 ≡ a
or_zero_fuel n zero p = bit_or-bitwise 0 0
or_zero_fuel zero (suc a) p = absurd (omega arith)
or_zero_fuel (suc n) (suc a) p =
    omega (arith, bit_or_step (suc a) 0, or_zero_fuel n (suc a / 2) (omega arith))

-- Parts that share no digit are joined by `|` as by `+`, the low part on either side.
pub bit_or_low : (k q r : ℕ) → r < 2 ^ k → bit_or (q * 2 ^ k) r ≡ q * 2 ^ k + r
bit_or_low zero q r p = below_one r p
  where
    below_one : (x : ℕ) → x < 2 ^ 0 → bit_or (q * 2 ^ 0) x ≡ q * 2 ^ 0 + x
    below_one zero h = omega (arith, or_zero_fuel (q * 2 ^ 0) (q * 2 ^ 0) (omega arith))
    below_one (suc x) h = absurd (omega arith)
bit_or_low (suc k) q r p =
    let d : q * 2 ^ suc k ≡ 2 * (q * 2 ^ k) = double k q in
    let e : 2 ^ suc k ≡ 2 ^ k * 2 = pow-suc 2 k in
    let h : q * 2 ^ suc k / 2 ≡ q * 2 ^ k = omega arith in
    let ih : bit_or (q * 2 ^ suc k / 2) (r / 2) ≡ q * 2 ^ k + r / 2 =
      ap (λ t. bit_or t (r / 2)) h ∙ bit_or_low k q (r / 2) (omega arith) in
    omega (arith, bit_or_step (q * 2 ^ suc k) r)
  where
    double : (j x : ℕ) → x * 2 ^ suc j ≡ 2 * (x * 2 ^ j)
    double j x = omega (arith, ap (λ (t : ℕ). x * t) (pow-suc 2 j))

or_comm_fuel : (n a b : ℕ) → a ≤ n → b ≤ n → bit_or a b ≡ bit_or b a
or_comm_fuel zero zero zero p q = refl
or_comm_fuel zero (suc a) b p q = absurd (omega arith)
or_comm_fuel zero zero (suc b) p q = absurd (omega arith)
or_comm_fuel (suc n) a b p q = omega (
  arith,
  bit_or_step a b,
  bit_or_step b a,
  or_comm_fuel n (a / 2) (b / 2) (omega arith) (omega arith),
)

pub bit_or_comm : (a b : ℕ) → bit_or a b ≡ bit_or b a
bit_or_comm a b = or_comm_fuel (a + b) a b (omega arith) (omega arith)

pub bit_or_high : (k q r : ℕ) → r < 2 ^ k → bit_or r (q * 2 ^ k) ≡ q * 2 ^ k + r
bit_or_high k q r p = bit_or_comm r (q * 2 ^ k) ∙ bit_or_low k q r p

-- `diff |= x` keeps a zero exactly as long as every `x` is zero.
or_zero_parts_fuel : (n a b : ℕ) → a ≤ n → b ≤ n → bit_or a b ≡ 0 → (a ≡ 0) × (b ≡ 0)
or_zero_parts_fuel zero a b p q h = (omega arith, omega arith)
or_zero_parts_fuel (suc n) a b p q h =
    let ih =
      or_zero_parts_fuel n (a / 2) (b / 2) (omega arith) (omega arith)
        (omega (arith, bit_or_step a b)) in
    (omega (arith, bit_or_step a b, ih.0), omega (arith, bit_or_step a b, ih.1))

pub bit_or_zero_parts : (a b : ℕ) → bit_or a b ≡ 0 → (a ≡ 0) × (b ≡ 0)
bit_or_zero_parts a b = or_zero_parts_fuel (a + b) a b (omega arith) (omega arith)

-- Numbers that differ nowhere are equal.
xor_zero_eq_fuel : (n a b : ℕ) → a ≤ n → b ≤ n → bit_xor a b ≡ 0 → a ≡ b
xor_zero_eq_fuel zero a b p q h = omega arith
xor_zero_eq_fuel (suc n) a b p q h = omega (
  arith,
  bit_xor_step a b,
  xor_zero_eq_fuel n (a / 2) (b / 2) (omega arith) (omega arith) (omega (arith, bit_xor_step a b)),
)

pub bit_xor_zero_eq : (a b : ℕ) → bit_xor a b ≡ 0 → a ≡ b
bit_xor_zero_eq a b = xor_zero_eq_fuel (a + b) a b (omega arith) (omega arith)
