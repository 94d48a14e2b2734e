-- ===== src/Field/Polyval.antt =====
-- POLYVAL as a function of the message: total on whole blocks, linear, and the value of a polynomial.
use true_pad.Base.{length-take_le, length-drop, All-take, All-drop}
use true_pad.Base.Bits.{bit_xor_step, bit_xor-lt, zero-bit_xor, bit_or_low}
use true_pad.Base.Xor.{xor_bytes, length-xor_bytes, take-xor_bytes, drop-xor_bytes}
use true_pad.Field.{read_le, bytes_to_field, field_to_bytes, dot, polyval_blocks, polyval}
use native.Mathlib.Nat.{pow-suc}
use true_pad.Base.Buffer.{le_bytes}
use true_pad.Field.Bytes16.{
  write_le-le_bytes, read_le-lt, length-field_to_bytes, field_to_bytes-IsBytes,
}
use true_pad.Field.Linear.{bit_xor_interchange, dot-lt, dot-bit_xor}
use true_pad.Base.{
  ℕ, zero, suc, ◌+◌, ◌*◌, ◌/◌, ◌%◌, ◌^◌, ◌<◌, ◌≡◌, ◌≢◌, ◌⊎◌, refl, sym, ap, ap₂, ◌∙◌, bit_xor, [],
  ◌∷◌, none, some, arith, Bytes, IsBytes, length, take, drop, ◌>>=◌,
}

-- A number in parts, and the exclusive or of two such numbers.
xor_parts :
    (k x y a b : ℕ)
    → a < 2 ^ k
    → b < 2 ^ k
    → bit_xor (x * 2 ^ k + a) (y * 2 ^ k + b) ≡ bit_xor x y * 2 ^ k + bit_xor a b
xor_parts zero x y a b p q =
    let e : x * 2 ^ 0 + a ≡ x = omega arith in
    let f : y * 2 ^ 0 + b ≡ y = omega arith in
    let c : a ≡ 0 = omega arith in
    let d : b ≡ 0 = omega arith in omega (arith, ap₂ bit_xor e f, ap₂ bit_xor c d, zero-bit_xor 0)
xor_parts (suc k) x y a b p q = omega (
  arith,
  bit_xor_step (x * 2 ^ suc k + a) (y * 2 ^ suc k + b),
  ap₂ bit_xor (half x a) (half y b),
  xor_parts k x y (a / 2) (b / 2) (omega (arith, pow-suc 2 k)) (omega (arith, pow-suc 2 k)),
  bit_xor_step a b,
  double x,
  double y,
  double (bit_xor x y),
)
  where
    double : (w : ℕ) → w * 2 ^ suc k ≡ 2 * (w * 2 ^ k)
    double w = omega (arith, ap (λ (t : ℕ). w * t) (pow-suc 2 k))

    half : (w c : ℕ) → (w * 2 ^ suc k + c) / 2 ≡ w * 2 ^ k + c / 2
    half w c = omega (arith, double w)

xor_digits :
    (x y a b : ℕ)
    → a < 256
    → b < 256
    → bit_xor (x * 256 + a) (y * 256 + b) ≡ bit_xor x y * 256 + bit_xor a b
xor_digits x y a b p q = xor_parts 8 x y a b p q

le_bytes-bit_xor : (n a b : ℕ) → le_bytes n (bit_xor a b) ≡ xor_bytes (le_bytes n a) (le_bytes n b)
le_bytes-bit_xor zero a b = refl
le_bytes-bit_xor (suc n) a b =
    let e : a / 256 * 256 + a % 256 ≡ a = omega arith in
    let f : b / 256 * 256 + b % 256 ≡ b = omega arith in
    let parts : bit_xor a b ≡ bit_xor (a / 256) (b / 256) * 256 + bit_xor (a % 256) (b % 256) =
      ap₂ bit_xor (sym e) (sym f)
      ∙ xor_digits (a / 256) (b / 256) (a % 256) (b % 256) (omega arith) (omega arith) in
    let small = bit_xor-lt 8 (a % 256) (b % 256) (omega arith) (omega arith) in
    let low : bit_xor a b % 256 ≡ bit_xor (a % 256) (b % 256) = omega arith in
    let high : bit_xor a b / 256 ≡ bit_xor (a / 256) (b / 256) = omega arith in
    ap₂ ◌∷◌ low (ap (le_bytes n) high ∙ le_bytes-bit_xor n (a / 256) (b / 256))

field_to_bytes-bit_xor :
    (a b : ℕ) → field_to_bytes (bit_xor a b) ≡ xor_bytes (field_to_bytes a) (field_to_bytes b)
unfolding field_to_bytes
field_to_bytes-bit_xor a b =
    write_le-le_bytes 16 (bit_xor a b)
    ∙ le_bytes-bit_xor 16 a b
    ∙ ap₂ xor_bytes (sym (write_le-le_bytes 16 a)) (sym (write_le-le_bytes 16 b))

read_le-xor_bytes :
    (a b : Bytes)
    → IsBytes a
    → IsBytes b
    → length a ≡ length b
    → read_le (xor_bytes a b) ≡ bit_xor (read_le a) (read_le b)
unfolding read_le
read_le-xor_bytes [] [] p q e = sym (zero-bit_xor 0)
read_le-xor_bytes [] (y ∷ b) p q e = absurd (omega arith)
read_le-xor_bytes (x ∷ a) [] p q e = absurd (omega arith)
read_le-xor_bytes (x ∷ a) (y ∷ b) p q e =
    bit_or_low 8 (read_le (xor_bytes a b)) (bit_xor x y) (bit_xor-lt 8 x y p.0 q.0)
    ∙ ap (λ (t : ℕ). t * 256 + bit_xor x y) (read_le-xor_bytes a b p.1 q.1 (omega arith))
    ∙ sym (xor_digits (read_le a) (read_le b) x y p.0 q.0)
    ∙ ap₂ bit_xor (sym (bit_or_low 8 (read_le a) x p.0)) (sym (bit_or_low 8 (read_le b) y q.0))

blocks-xor_bytes :
    (n key s s' : ℕ) (m m' : Bytes)
    → IsBytes m
    → IsBytes m'
    → length m ≡ 16 * n
    → length m' ≡ 16 * n
    → s < 2 ^ 128
    → s' < 2 ^ 128
    → polyval_blocks n key (bit_xor s s') (xor_bytes m m')
      ≡ bit_xor (polyval_blocks n key s m) (polyval_blocks n key s' m')
unfolding polyval_blocks
blocks-xor_bytes zero key s s' m m' p q l l' hs hs' = refl
blocks-xor_bytes (suc n) key s s' m m' p q l l' hs hs' =
    ap₂ (polyval_blocks n key) state (drop-xor_bytes 16 m m' (omega arith))
    ∙ blocks-xor_bytes n key _ _ (drop 16 m) (drop 16 m') (All-drop _ 16 m p) (All-drop _ 16 m' q)
        (omega (arith, length-drop 16 m)) (omega (arith, length-drop 16 m'))
        (dot-lt _ key (bit_xor-lt 128 s _ hs x-lt)) (dot-lt _ key (bit_xor-lt 128 s' _ hs' y-lt))
  where
    x : ℕ
    x = read_le (take 16 m)

    y : ℕ
    y = read_le (take 16 m')

    x-lt : x < 2 ^ 128
    x-lt = read_le-lt (take 16 m) (All-take _ 16 m p) (length-take_le 16 m (omega arith))

    y-lt : y < 2 ^ 128
    y-lt = read_le-lt (take 16 m') (All-take _ 16 m' q) (length-take_le 16 m' (omega arith))

    block : read_le (take 16 (xor_bytes m m')) ≡ bit_xor x y
    block =
        ap read_le (take-xor_bytes 16 m m')
        ∙ read_le-xor_bytes (take 16 m) (take 16 m') (All-take _ 16 m p) (All-take _ 16 m' q)
            (length-take_le 16 m (omega arith) ∙ sym (length-take_le 16 m' (omega arith)))

    state :
        dot (bit_xor (bit_xor s s') (read_le (take 16 (xor_bytes m m')))) key
        ≡ bit_xor (dot (bit_xor s x) key) (dot (bit_xor s' y) key)
    state =
        ap (λ t. dot (bit_xor (bit_xor s s') t) key) block
        ∙ ap (λ t. dot t key) (bit_xor_interchange s s' x y)
        ∙ dot-bit_xor (bit_xor s x) (bit_xor s' y) key (bit_xor-lt 128 s x hs x-lt)
            (bit_xor-lt 128 s' y hs' y-lt)

-- POLYVAL of a key and a message in whole blocks, as a field element.
pub polyval_whole :
    (h m : Bytes)
    → length h ≡ 16
    → length m % 16 ≡ 0
    → polyval h m ≡ some (field_to_bytes (polyval_blocks (length m / 16) (read_le h) 0 m))
unfolding polyval bytes_to_field
polyval_whole h m lh lm = ground arith

-- POLYVAL gives sixteen bytes for a key of sixteen bytes and a message of whole blocks, and fails on
-- every other input.
pub polyval_total :
    (h m : Bytes)
    → ((length h ≡ 16) × (length m % 16 ≡ 0)
        → (t : Bytes) × (polyval h m ≡ some t) × (length t ≡ 16) × IsBytes t)
      × ((length h ≢ 16) ⊎ (length m % 16 ≢ 0) → polyval h m ≡ none)
polyval_total h m = (
  λ (lh, lm). (
    field_to_bytes (polyval_blocks (length m / 16) (read_le h) 0 m),
    polyval_whole h m lh lm,
    length-field_to_bytes _,
    field_to_bytes-IsBytes _,
  ),
  unfold polyval bytes_to_field in (λ bad. ground arith),
)

-- The difference of the hashes of two messages of one length is the hash of their difference.
pub polyval-xor_bytes :
    (h m m' : Bytes)
    → length h ≡ 16
    → IsBytes m
    → IsBytes m'
    → length m ≡ length m'
    → length m % 16 ≡ 0
    → polyval h (xor_bytes m m') ≡ (do t ← polyval h m; t' ← polyval h m'; some (xor_bytes t t'))
polyval-xor_bytes h m m' lh p q e whole =
    let l = length-xor_bytes m m' (omega arith) in
    let n : length (xor_bytes m m') / 16 ≡ length m / 16 = omega (arith, l) in
    let n' : length m' / 16 ≡ length m / 16 = omega arith in
    polyval_whole h (xor_bytes m m') lh (omega (arith, l))
    ∙ ap some (
        ap (λ k. field_to_bytes (polyval_blocks k (read_le h) 0 (xor_bytes m m'))) n
        ∙ ap (λ t. field_to_bytes (polyval_blocks (length m / 16) (read_le h) t (xor_bytes m m')))
            (sym (zero-bit_xor 0))
        ∙ ap field_to_bytes (
            blocks-xor_bytes (length m / 16) (read_le h) 0 0 m m' p q (omega arith) (omega arith)
              (omega arith) (omega arith))
        ∙ field_to_bytes-bit_xor _ _
        ∙ ap
            (λ k.
              xor_bytes (field_to_bytes (polyval_blocks (length m / 16) (read_le h) 0 m))
                (field_to_bytes (polyval_blocks k (read_le h) 0 m')))
            (sym n'))
    ∙ sym (both (polyval_whole h m lh whole) (polyval_whole h m' lh (omega arith)))
  where
    both :
        {t t' : Bytes}
        → polyval h m ≡ some t
        → polyval h m' ≡ some t'
        → (do u ← polyval h m; u' ← polyval h m'; some (xor_bytes u u')) ≡ some (xor_bytes t t')
    both a b = rw (a, b)
