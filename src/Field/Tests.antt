-- ===== src/Field/Tests.antt =====
-- The field's theorems on small inputs.
use true_pad.Field.{bytes_to_field, field_to_bytes, read_le, dot, polyval}
use true_pad.Field.Bytes16.{bytes_to_field-field_to_bytes}
use true_pad.Field.Linear.{dot-bit_xor}
use true_pad.Field.Polyval.{polyval_total, polyval-xor_bytes}
use true_pad.Field.Horner.{polynomial, polyval-polynomial}
use true_pad.Base.Xor.{xor_bytes}
use true_pad.Base.{every_byte-IsBytes}
use true_pad.Base.{
  ◌/◌, ◌%◌, ◌≡◌, ◌≢◌, ◌⊎◌, refl, bit_xor, [], ◌∷◌, none, some, arith, Bytes, IsBytes, length, ◌>>=◌,
}

abbrev key_a : Bytes
key_a = 1 ∷ 2 ∷ 3 ∷ 4 ∷ 5 ∷ 6 ∷ 7 ∷ 8 ∷ 9 ∷ 10 ∷ 11 ∷ 12 ∷ 13 ∷ 14 ∷ 15 ∷ 16 ∷ []

abbrev block_a : Bytes
block_a = 200 ∷ 0 ∷ 3 ∷ 4 ∷ 5 ∷ 6 ∷ 7 ∷ 8 ∷ 9 ∷ 10 ∷ 11 ∷ 12 ∷ 13 ∷ 14 ∷ 15 ∷ 255 ∷ []

bytes_to_field-field_to_bytes_example : bytes_to_field (field_to_bytes 77777) ≡ some 77777
bytes_to_field-field_to_bytes_example = bytes_to_field-field_to_bytes 77777 (omega arith)

dot-bit_xor_example : dot (bit_xor 300 77) 5 ≡ bit_xor (dot 300 5) (dot 77 5)
dot-bit_xor_example = dot-bit_xor 300 77 5 (omega arith) (omega arith)

polyval_total_example :
    ((length key_a ≡ 16) × (length block_a % 16 ≡ 0)
      → (t : Bytes) × (polyval key_a block_a ≡ some t) × (length t ≡ 16) × IsBytes t)
    × ((length key_a ≢ 16) ⊎ (length block_a % 16 ≢ 0) → polyval key_a block_a ≡ none)
polyval_total_example = polyval_total key_a block_a

polyval-xor_bytes_example :
    polyval key_a (xor_bytes block_a key_a)
    ≡ (do t ← polyval key_a block_a; t' ← polyval key_a key_a; some (xor_bytes t t'))
polyval-xor_bytes_example =
    polyval-xor_bytes key_a block_a key_a refl (every_byte-IsBytes block_a refl)
      (every_byte-IsBytes key_a refl) refl refl

polyval-polynomial_example :
    polyval key_a block_a
    ≡ some (field_to_bytes (polynomial (read_le key_a) (length block_a / 16) block_a))
polyval-polynomial_example =
    polyval-polynomial key_a block_a (every_byte-IsBytes block_a refl) refl refl
