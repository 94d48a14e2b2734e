-- ===== src/Field/Horner.antt =====
-- The iteration of POLYVAL against the polynomial that it stands for.
use true_pad.Base.{length-take_le, length-drop, All-take, All-drop}
use true_pad.Base.Bits.{bit_xor-lt, bit_xor_assoc, bit_xor_self, bit_xor-zero, zero-bit_xor}
use true_pad.Field.{read_le, field_to_bytes, dot, polyval_blocks, polyval}
use true_pad.Field.Bytes16.{read_le-lt}
use true_pad.Field.Linear.{dot-lt, dot-bit_xor}
use true_pad.Field.Polyval.{polyval_whole}
use true_pad.Base.{
  ℕ, zero, suc, ◌*◌, ◌/◌, ◌%◌, ◌^◌, ◌<◌, ◌≡◌, refl, sym, ap, ◌∙◌, bit_xor, some, arith, Bytes,
  IsBytes, length, take, drop,
}

-- An element times the `k`-th power of the key, under `dot`.
abbrev pub times_power : ℕ → ℕ → ℕ → ℕ
times_power key zero x = x
times_power key (suc k) x = times_power key k (dot x key)

-- X_1 H^n + X_2 H^(n-1) + … + X_n H, over the blocks of a message.
abbrev pub polynomial : ℕ → ℕ → Bytes → ℕ
polynomial key zero message = 0
polynomial key (suc n) message =
    bit_xor (times_power key (suc n) (read_le (take 16 message)))
      (polynomial key n (drop 16 message))

times_power-bit_xor :
    (key k a b : ℕ)
    → a < 2 ^ 128
    → b < 2 ^ 128
    → times_power key k (bit_xor a b) ≡ bit_xor (times_power key k a) (times_power key k b)
times_power-bit_xor key zero a b p q = refl
times_power-bit_xor key (suc k) a b p q =
    ap (times_power key k) (dot-bit_xor a b key p q)
    ∙ times_power-bit_xor key k (dot a key) (dot b key) (dot-lt a key p) (dot-lt b key q)

blocks-polynomial :
    (n key s : ℕ) (m : Bytes)
    → IsBytes m
    → length m ≡ 16 * n
    → s < 2 ^ 128
    → polyval_blocks n key s m ≡ bit_xor (times_power key n s) (polynomial key n m)
unfolding polyval_blocks
blocks-polynomial zero key s m p l h = sym (bit_xor-zero s)
blocks-polynomial (suc n) key s m p l h =
    blocks-polynomial n key _ (drop 16 m) (All-drop _ 16 m p) (omega (arith, length-drop 16 m))
      (dot-lt _ key (bit_xor-lt 128 s x h x-lt))
    ∙ ap (λ t. bit_xor (times_power key n t) (polynomial key n (drop 16 m)))
        (dot-bit_xor s x key h x-lt)
    ∙ ap (λ t. bit_xor t (polynomial key n (drop 16 m)))
        (times_power-bit_xor key n (dot s key) (dot x key) (dot-lt s key h) (dot-lt x key x-lt))
    ∙ bit_xor_assoc _ _ _
  where
    x : ℕ
    x = read_le (take 16 m)

    x-lt : x < 2 ^ 128
    x-lt = read_le-lt (take 16 m) (All-take _ 16 m p) (length-take_le 16 m (omega arith))

dot-zero : (key : ℕ) → dot 0 key ≡ 0
dot-zero key =
    ap (λ t. dot t key) (sym (bit_xor_self 0))
    ∙ dot-bit_xor 0 0 key (omega arith) (omega arith)
    ∙ bit_xor_self (dot 0 key)

times_zero : (key k : ℕ) → times_power key k 0 ≡ 0
times_zero key zero = refl
times_zero key (suc k) = ap (times_power key k) (dot-zero key) ∙ times_zero key k

-- POLYVAL is the value, at the key, of the polynomial whose coefficients are the message's blocks
-- and whose constant term is zero.
pub polyval-polynomial :
    (h m : Bytes)
    → IsBytes m
    → length h ≡ 16
    → length m % 16 ≡ 0
    → polyval h m ≡ some (field_to_bytes (polynomial (read_le h) (length m / 16) m))
polyval-polynomial h m p lh whole =
    polyval_whole h m lh whole
    ∙ ap (λ t. some (field_to_bytes t))
        (blocks-polynomial (length m / 16) (read_le h) 0 m p (omega arith) (omega arith)
          ∙ ap (λ t. bit_xor t (polynomial (read_le h) (length m / 16) m))
              (times_zero (read_le h) (length m / 16))
          ∙ zero-bit_xor _)
