-- ===== src/Field/Bytes16.antt =====
-- Field elements as sixteen little-endian bytes.
use true_pad.Base.Bits.{mask8, bit_or_low}
use true_pad.Base.Buffer.{
  le_bytes, le_value, byte_range, le_bytes-IsBytes, le_value-le_bytes, le_bytes-le_value,
  le_value-lt,
}
use true_pad.Field.{read_le, bytes_to_field, write_le, field_to_bytes}
use true_pad.Base.{
  ℕ, zero, suc, ◌/◌, ◌^◌, ◌<◌, ◌≡◌, refl, sym, ap, ap₂, subst, ◌∙◌, [], ◌∷◌, some, arith, Bytes,
  IsBytes, length,
}

pub read_le-le_value : (bs : Bytes) → IsBytes bs → read_le bs ≡ le_value bs
unfolding read_le
read_le-le_value [] h = refl
read_le-le_value (b ∷ bs) h =
    bit_or_low 8 (read_le bs) b h.0 ∙ omega (arith, read_le-le_value bs h.1)

pub write_le-le_bytes : (n v : ℕ) → write_le n v ≡ le_bytes n v
unfolding write_le
write_le-le_bytes zero v = refl
write_le-le_bytes (suc n) v = ap₂ ◌∷◌ (mask8 v) (write_le-le_bytes n (v / 2 ^ 8))

pub length-field_to_bytes : (fe : ℕ) → length (field_to_bytes fe) ≡ 16
unfolding field_to_bytes
length-field_to_bytes fe = refl

pub field_to_bytes-IsBytes : (fe : ℕ) → IsBytes (field_to_bytes fe)
unfolding field_to_bytes
field_to_bytes-IsBytes fe = subst IsBytes (sym (write_le-le_bytes 16 fe)) (le_bytes-IsBytes 16 fe)

-- Below 2^128 an element and its sixteen bytes determine each other.
pub bytes_to_field-field_to_bytes :
    (fe : ℕ) → fe < 2 ^ 128 → bytes_to_field (field_to_bytes fe) ≡ some fe
unfolding bytes_to_field field_to_bytes
bytes_to_field-field_to_bytes fe h = ap some (
    read_le-le_value (field_to_bytes fe) (field_to_bytes-IsBytes fe)
    ∙ ap le_value (write_le-le_bytes 16 fe)
    ∙ le_value-le_bytes 16 fe (omega arith))

pub field_to_bytes-read_le :
    (bs : Bytes) → IsBytes bs → length bs ≡ 16 → field_to_bytes (read_le bs) ≡ bs
unfolding field_to_bytes
field_to_bytes-read_le bs ok l =
    write_le-le_bytes 16 (read_le bs)
    ∙ ap₂ le_bytes (sym l) (read_le-le_value bs ok)
    ∙ le_bytes-le_value bs ok

pub read_le-lt : (bs : Bytes) → IsBytes bs → length bs ≡ 16 → read_le bs < 2 ^ 128
read_le-lt bs ok l = omega (arith, read_le-le_value bs ok, le_value-lt bs ok, ap byte_range l)
