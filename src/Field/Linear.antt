-- ===== src/Field/Linear.antt =====
-- Multiplication in the field is linear over exclusive or, in each factor.
use native.Mathlib.Nat.{pow-suc, div-div-eq-div-mul, mul_comm}
use true_pad.Base.{dec_lt}
use true_pad.Base.Bits.{
  mask1, bit_and_step, bit_xor_step, bit_xor-lt, bit_xor_comm, bit_xor_assoc, bit_xor_self,
  bit_xor-zero, zero-bit_xor,
}
use true_pad.Field.{poly, x_neg_128, times_x, mul_rounds, gf_mul, dot}
use true_pad.Base.{
  ℕ, zero, suc, ◌+◌, ◌*◌, ◌/◌, ◌%◌, ◌^◌, ◌≤◌, ◌<◌, ◌≡◌, refl, sym, ap, ap₂, ◌∙◌, bit_and, bit_xor,
  arith, ◌==◌, if◌then◌else◌,
}

div_pow_suc : (k x : ℕ) → x / 2 ^ suc k ≡ x / 2 / 2 ^ k
div_pow_suc k x =
    ap (λ (t : ℕ). x / t) (pow-suc 2 k ∙ mul_comm (2 ^ k) 2) ∙ sym (div-div-eq-div-mul x 2 (2 ^ k))

-- The digits from the `k`-th on, of an exclusive or.
pub bit_xor-shift : (k a b : ℕ) → bit_xor a b / 2 ^ k ≡ bit_xor (a / 2 ^ k) (b / 2 ^ k)
bit_xor-shift zero a b =
    let p : bit_xor a b / 2 ^ 0 ≡ bit_xor a b = omega arith in
    let q : a / 2 ^ 0 ≡ a = omega arith in
    let r : b / 2 ^ 0 ≡ b = omega arith in p ∙ ap₂ bit_xor (sym q) (sym r)
bit_xor-shift (suc k) a b =
    half_shift (bit_xor a b)
    ∙ ap (λ t. t / 2 ^ k) half
    ∙ bit_xor-shift k (a / 2) (b / 2)
    ∙ ap₂ bit_xor (sym (half_shift a)) (sym (half_shift b))
  where
    half : bit_xor a b / 2 ≡ bit_xor (a / 2) (b / 2)
    half = omega (arith, bit_xor_step a b)

    half_shift : (x : ℕ) → x / 2 ^ suc k ≡ x / 2 / 2 ^ k
    half_shift x = div_pow_suc k x

-- A single digit, picked out by `&`.
pub bit_and-pow : (k a : ℕ) → bit_and a (2 ^ k) ≡ a / 2 ^ k % 2 * 2 ^ k
bit_and-pow zero a = omega (arith, mask1 a)
bit_and-pow (suc k) a =
    let e : 2 ^ suc k ≡ 2 ^ k * 2 = pow-suc 2 k in
    let even : 2 ^ suc k % 2 ≡ 0 = omega arith in
    let half : 2 ^ suc k / 2 ≡ 2 ^ k = omega arith in
    omega (
      arith,
      bit_and_step a (2 ^ suc k),
      ap (bit_and (a / 2)) half,
      bit_and-pow k (a / 2),
      ap (λ (t : ℕ). t % 2 * 2 ^ suc k) (div_pow_suc k a),
      ap (λ (t : ℕ). a / 2 / 2 ^ k % 2 * t) e,
    )

-- `(x ^ y) ^ (z ^ w)`, regrouped.
pub bit_xor_interchange :
    (x y z w : ℕ) → bit_xor (bit_xor x y) (bit_xor z w) ≡ bit_xor (bit_xor x z) (bit_xor y w)
bit_xor_interchange x y z w =
    bit_xor_assoc x y (bit_xor z w)
    ∙ ap (bit_xor x)
        (sym (bit_xor_assoc y z w) ∙ ap (λ t. bit_xor t w) (bit_xor_comm y z) ∙ bit_xor_assoc z y w)
    ∙ sym (bit_xor_assoc x z (bit_xor y w))

bit_xor-double : (a b : ℕ) → bit_xor a b * 2 ≡ bit_xor (a * 2) (b * 2)
bit_xor-double a b =
    let p : a * 2 / 2 ≡ a = omega arith in
    let q : b * 2 / 2 ≡ b = omega arith in
    omega (arith, bit_xor_step (a * 2) (b * 2), ap₂ bit_xor p q)

-- What `times_x` does with the doubled number.
abbrev reduce : ℕ → ℕ
reduce d = if d / 2 ^ 128 % 2 == 0 then d else bit_xor d poly

times_x-reduce : (s : ℕ) → times_x s ≡ reduce (s * 2)
unfolding times_x
times_x-reduce s = ground (arith, bit_and-pow 128 (s * 2))

reduce_low : (d : ℕ) → d < 2 ^ 128 → reduce d ≡ d
reduce_low d h = ground arith

reduce_high : (d : ℕ) → 2 ^ 128 ≤ d → d < 2 ^ 129 → reduce d ≡ bit_xor d poly
reduce_high d h k = ground arith

reduce-lt : (d : ℕ) → d < 2 ^ 129 → reduce d < 2 ^ 128
reduce-lt d h = elim (dec_lt d (2 ^ 128)) [
  | yes low ↦ rw (reduce_low d low) low
  | no high ↦
      let one : d / 2 ^ 128 ≡ 1 = omega arith in
      let e : bit_xor d poly / 2 ^ 128 ≡ 0 =
        bit_xor-shift 128 d poly ∙ ap (λ t. bit_xor t (poly / 2 ^ 128)) one in
      rw (reduce_high d (omega arith) h) (omega arith)
]

parity : (a b : ℕ) → bit_xor a b % 2 ≡ (a + b) % 2
parity a b = omega (arith, bit_xor_step a b)

-- The same, over the three top bits.
reduced :
    (x y z d e m : ℕ)
    → x < 2
    → y < 2
    → z ≡ (x + y) % 2
    → (if z == 0 then bit_xor d e else bit_xor (bit_xor d e) m)
      ≡ bit_xor (if x == 0 then d else bit_xor d m) (if y == 0 then e else bit_xor e m)
reduced x y z d e m hx hy hz = ground (
  arith,
  bit_xor_assoc d e m,
  bit_xor_assoc d m e,
  bit_xor_comm m e,
  bit_xor_interchange d m e m,
  bit_xor_self m,
  bit_xor-zero (bit_xor d e),
)

reduce-bit_xor :
    (d e : ℕ) → d < 2 ^ 129 → e < 2 ^ 129 → reduce (bit_xor d e) ≡ bit_xor (reduce d) (reduce e)
reduce-bit_xor d e p q =
    reduced (d / 2 ^ 128 % 2) (e / 2 ^ 128 % 2) (bit_xor d e / 2 ^ 128 % 2) d e poly (omega arith)
      (omega arith)
      (omega
        (arith, ap (λ (t : ℕ). t % 2) (bit_xor-shift 128 d e), parity (d / 2 ^ 128) (e / 2 ^ 128)))

pub times_x-lt : (s : ℕ) → s < 2 ^ 128 → times_x s < 2 ^ 128
times_x-lt s h = rw (times_x-reduce s) (reduce-lt (s * 2) (omega arith))

pub times_x-bit_xor :
    (s t : ℕ) → s < 2 ^ 128 → t < 2 ^ 128 → times_x (bit_xor s t) ≡ bit_xor (times_x s) (times_x t)
times_x-bit_xor s t p q =
    times_x-reduce (bit_xor s t)
    ∙ ap reduce (bit_xor-double s t)
    ∙ reduce-bit_xor (s * 2) (t * 2) (omega arith) (omega arith)
    ∙ ap₂ bit_xor (sym (times_x-reduce s)) (sym (times_x-reduce t))

-- The bit that a round of `gfMul` looks at.
abbrev bit_at : ℕ → ℕ → ℕ
bit_at i b = bit_and (b / 2 ^ i) 1

bit_at-bit_xor : (i b c : ℕ) → bit_at i (bit_xor b c) ≡ (bit_at i b + bit_at i c) % 2
bit_at-bit_xor i b c =
    let p = mask1 (bit_xor b c / 2 ^ i) in
    omega (
      arith,
      mask1 (bit_xor b c / 2 ^ i),
      mask1 (b / 2 ^ i),
      mask1 (c / 2 ^ i),
      ap (λ (t : ℕ). t % 2) (bit_xor-shift i b c),
      parity (b / 2 ^ i) (c / 2 ^ i),
    )

pick_left :
    (x r r' s s' : ℕ)
    → (if x == 0 then bit_xor r r' else bit_xor (bit_xor r r') (bit_xor s s'))
      ≡ bit_xor (if x == 0 then r else bit_xor r s) (if x == 0 then r' else bit_xor r' s')
pick_left x r r' s s' = ground (arith, bit_xor_interchange r r' s s')

pick_right :
    (x y z r r' s : ℕ)
    → x < 2
    → y < 2
    → z ≡ (x + y) % 2
    → (if z == 0 then bit_xor r r' else bit_xor (bit_xor r r') s)
      ≡ bit_xor (if x == 0 then r else bit_xor r s) (if y == 0 then r' else bit_xor r' s)
pick_right x y z r r' s hx hy hz = reduced x y z r r' s hx hy hz

rounds-left :
    (n i b r r' s s' : ℕ)
    → s < 2 ^ 128
    → s' < 2 ^ 128
    → mul_rounds n i b (bit_xor r r') (bit_xor s s')
      ≡ bit_xor (mul_rounds n i b r s) (mul_rounds n i b r' s')
unfolding mul_rounds
rounds-left zero i b r r' s s' p q = refl
rounds-left (suc n) i b r r' s s' p q =
    ap₂ (mul_rounds n (i + 1) b) (pick_left (bit_at i b) r r' s s') (times_x-bit_xor s s' p q)
    ∙ rounds-left n (i + 1) b _ _ (times_x s) (times_x s') (times_x-lt s p) (times_x-lt s' q)

rounds-right :
    (n i b c r r' s : ℕ)
    → mul_rounds n i (bit_xor b c) (bit_xor r r') s
      ≡ bit_xor (mul_rounds n i b r s) (mul_rounds n i c r' s)
unfolding mul_rounds
rounds-right zero i b c r r' s = refl
rounds-right (suc n) i b c r r' s =
    ap (λ t. mul_rounds n (i + 1) (bit_xor b c) t (times_x s))
      (pick_right (bit_at i b) (bit_at i c) (bit_at i (bit_xor b c)) r r' s
        (omega (arith, mask1 (b / 2 ^ i))) (omega (arith, mask1 (c / 2 ^ i)))
        (bit_at-bit_xor i b c))
    ∙ rounds-right n (i + 1) b c _ _ (times_x s)

rounds-lt : (n i b r s : ℕ) → r < 2 ^ 128 → s < 2 ^ 128 → mul_rounds n i b r s < 2 ^ 128
unfolding mul_rounds
rounds-lt zero i b r s p q = p
rounds-lt (suc n) i b r s p q =
    rounds-lt n (i + 1) b _ (times_x s) (ground (arith, bit_xor-lt 128 r s p q)) (times_x-lt s q)

-- Products stay in the field.
pub gf_mul-lt : (a b : ℕ) → a < 2 ^ 128 → gf_mul a b < 2 ^ 128
unfolding gf_mul
gf_mul-lt a b p = rounds-lt 128 0 b 0 a (omega arith) p

-- Multiplication distributes over addition in its first factor.
pub gf_mul-bit_xor_left :
    (a a' b : ℕ)
    → a < 2 ^ 128
    → a' < 2 ^ 128
    → gf_mul (bit_xor a a') b ≡ bit_xor (gf_mul a b) (gf_mul a' b)
unfolding gf_mul
gf_mul-bit_xor_left a a' b p q =
    ap (λ t. mul_rounds 128 0 b t (bit_xor a a')) (sym (zero-bit_xor 0))
    ∙ rounds-left 128 0 b 0 0 a a' p q

-- And in its second.
pub gf_mul-bit_xor_right : (a b c : ℕ) → gf_mul a (bit_xor b c) ≡ bit_xor (gf_mul a b) (gf_mul a c)
unfolding gf_mul
gf_mul-bit_xor_right a b c =
    ap (λ t. mul_rounds 128 0 (bit_xor b c) t a) (sym (zero-bit_xor 0))
    ∙ rounds-right 128 0 b c 0 0 a

pub dot-lt : (a b : ℕ) → a < 2 ^ 128 → dot a b < 2 ^ 128
unfolding dot
dot-lt a b p = gf_mul-lt (gf_mul a b) x_neg_128 (gf_mul-lt a b p)

-- The product distributes over exclusive or in its first argument.
pub dot-bit_xor :
    (a a' b : ℕ) → a < 2 ^ 128 → a' < 2 ^ 128 → dot (bit_xor a a') b ≡ bit_xor (dot a b) (dot a' b)
unfolding dot
dot-bit_xor a a' b p q =
    ap (λ t. gf_mul t x_neg_128) (gf_mul-bit_xor_left a a' b p q)
    ∙ gf_mul-bit_xor_left (gf_mul a b) (gf_mul a' b) x_neg_128 (gf_mul-lt a b p) (gf_mul-lt a' b q)

pub dot-bit_xor_key : (a b c : ℕ) → a < 2 ^ 128 → dot a (bit_xor b c) ≡ bit_xor (dot a b) (dot a c)
unfolding dot
dot-bit_xor_key a b c p =
    ap (λ t. gf_mul t x_neg_128) (gf_mul-bit_xor_right a b c)
    ∙ gf_mul-bit_xor_left (gf_mul a b) (gf_mul a c) x_neg_128 (gf_mul-lt a b p) (gf_mul-lt a c p)
