-- ===== src/Envelope/Decimal/RoundTrip.antt =====
-- A safe integer is printed canonically, and its spelling denotes it again.
use true_pad.Base.{
  ℕ, zero, suc, ◌+◌, ◌-◌, ◌*◌, ◌/◌, ◌%◌, ◌^◌, ◌≤◌, ◌<◌, ◌≡◌, inl, inr, refl, ap, true, false, ◌&&◌,
  List, [], ◌∷◌, ◌++◌, Bool, arith, ltb, leb, Bool-cases, max_safe,
}
use true_pad.Base.{ℕ_discrete}
use true_pad.Envelope.Decimal.{
  is_decimal_digit, digits, to_decimal, all_digits, is_canonical, value_from, decimal_value,
}

value_from-append :
    (acc : ℕ) (xs : List ℕ) (c : ℕ)
    → value_from acc (xs ++ c ∷ []) ≡ value_from acc xs * 10 + (c - b'0')
unfolding value_from
value_from-append acc [] c = refl
value_from-append acc (x ∷ xs) c = value_from-append (acc * 10 + (x - b'0')) xs c

all_digits-append :
    (xs : List ℕ) (c : ℕ)
    → all_digits xs ≡ true
    → is_decimal_digit c ≡ true
    → all_digits (xs ++ c ∷ []) ≡ true
unfolding all_digits
all_digits-append [] c h d = ground arith
all_digits-append (x ∷ xs) c h d = ground (arith, all_digits-append xs c)

-- The first digit is not zero.
is_positive : List ℕ → Bool
is_positive [] = false
is_positive (c ∷ cs) = leb b'1' c && leb c b'9' && all_digits cs

is_positive-append :
    (xs : List ℕ) (c : ℕ)
    → is_positive xs ≡ true
    → is_decimal_digit c ≡ true
    → is_positive (xs ++ c ∷ []) ≡ true
unfolding is_positive
is_positive-append [] c h d = ground arith
is_positive-append (x ∷ xs) c h d = ground (arith, all_digits-append xs c)

is_positive-is_canonical : (xs : List ℕ) → is_positive xs ≡ true → is_canonical xs ≡ true
unfolding is_positive is_canonical all_digits
is_positive-is_canonical [] h = ground arith
is_positive-is_canonical (c ∷ []) h = ground arith
is_positive-is_canonical (c ∷ d ∷ cs) h = h

div_below : (fuel n : ℕ) → n < 10 ^ suc fuel → n / 10 < 10 ^ fuel
div_below fuel n l = let e : 10 ^ suc fuel ≡ 10 * 10 ^ fuel = omega arith in omega arith

digits-is_positive : (fuel n : ℕ) → 0 < n → n < 10 ^ fuel → is_positive (digits fuel n) ≡ true
unfolding digits is_positive all_digits
digits-is_positive zero n p l = ground arith
digits-is_positive (suc fuel) n p l = elim (Bool-cases (ltb n 10)) [
  | inl e ↦ rw (e) (ground arith)
  | inr e ↦
      let q : n / 10 < 10 ^ fuel = div_below fuel n l in
      rw (e) (
        is_positive-append (digits fuel (n / 10)) (b'0' + n % 10)
          (digits-is_positive fuel (n / 10) (ground arith) q) (ground arith))
]

value_from-digits : (fuel n : ℕ) → n < 10 ^ fuel → 0 < fuel → decimal_value (digits fuel n) ≡ n
unfolding digits decimal_value value_from
value_from-digits zero n l p = omega arith
value_from-digits (suc fuel) n l p = elim (Bool-cases (ltb n 10)) [
  | inl e ↦ rw (e) (omega arith)
  | inr e ↦
      rw (e, value_from-append 0 (digits fuel (n / 10)) (b'0' + n % 10))
        (elim (ℕ_discrete fuel 0) [
          | yes z ↦ let b : 10 ^ suc fuel ≡ 10 = ap (λ x. 10 ^ suc x) z in ground arith
          | no z ↦
              let v : value_from 0 (digits fuel (n / 10)) ≡ n / 10 =
                value_from-digits fuel (n / 10) (div_below fuel n l) (omega arith) in
              omega arith
        ])
]

pub is_canonical-to_decimal : (n : ℕ) → n ≤ max_safe → is_canonical (to_decimal n) ≡ true
unfolding to_decimal digits is_canonical all_digits
is_canonical-to_decimal zero h = refl
is_canonical-to_decimal (suc n) h =
    is_positive-is_canonical (digits 16 (suc n))
      (digits-is_positive 16 (suc n) (omega arith) (omega arith))

pub decimal_value-to_decimal : (n : ℕ) → n ≤ max_safe → decimal_value (to_decimal n) ≡ n
unfolding to_decimal
decimal_value-to_decimal n h = value_from-digits 16 n (omega arith) (omega arith)
