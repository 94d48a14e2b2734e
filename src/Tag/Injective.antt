-- ===== src/Tag/Injective.antt =====
-- Two records with one canonical byte string are one record.
use true_pad.Base.{append-left_cancel}
use true_pad.Base.Buffer.{le_bytes_injective}
use true_pad.Direction.{Direction}
use true_pad.Tag.{CanonicalFields, canonical_bytes, domain_separator, direction_byte}
use true_pad.Tag.Layout.{IsValid, header_tail, layout, canonical_bytes-layout}
use true_pad.Base.{◌≡◌, refl, sym, ap, ◌∙◌, arith, length, take, drop, get_or}

direction_byte_injective : (d e : Direction) → direction_byte d ≡ direction_byte e → d ≡ e
direction_byte_injective d e h = ground arith

-- The header's fields are read off the bytes at their places.
header_tail_injective :
    (f g : CanonicalFields)
    → IsValid f
    → IsValid g
    → header_tail f ≡ header_tail g
    → (f.direction ≡ g.direction)
      × (f.sequence ≡ g.sequence)
      × (f.start_offset ≡ g.start_offset)
      × (length f.ciphertext ≡ length g.ciphertext)
header_tail_injective f g v w e = (
  direction_byte_injective f.direction g.direction (ap (λ x. get_or x 1 0) e),
  le_bytes_injective 8 f.sequence g.sequence (omega (arith, v.sequence_safe))
      (omega (arith, w.sequence_safe)) (ap (λ x. take 8 (drop 8 x)) e),
  le_bytes_injective 8 f.start_offset g.start_offset (omega (arith, v.start_safe))
      (omega (arith, w.start_safe)) (ap (λ x. take 8 (drop 16 x)) e),
  le_bytes_injective 8 (length f.ciphertext) (length g.ciphertext)
      (omega (arith, v.ciphertext_length)) (omega (arith, w.ciphertext_length))
      (ap (λ x. take 8 (drop 24 x)) e),
)

layout_injective : (f g : CanonicalFields) → IsValid f → IsValid g → layout f ≡ layout g → f ≡ g
layout_injective f g v w e =
    let (_, past_domain) = append-left_cancel domain_separator domain_separator _ _ refl e in
    let (pair, past_pair) =
      append-left_cancel f.pair_id g.pair_id _ _ (v.pair_id_length ∙ sym w.pair_id_length)
        past_domain in
    let (tail, past_tail) = append-left_cancel (header_tail f) (header_tail g) _ _ refl past_pair in
    let (direction, sequence, start, len) = header_tail_injective f g v w tail in
    let (text, _) = append-left_cancel f.ciphertext g.ciphertext _ _ len past_tail in
    λ i. record {
      pair_id = pair i;
      direction = direction i;
      sequence = sequence i;
      start_offset = start i;
      ciphertext = text i;
    }

-- The canonical bytes determine every field, for records of any two lengths.
pub canonical_bytes_injective :
    (f g : CanonicalFields) → IsValid f → IsValid g → canonical_bytes f ≡ canonical_bytes g → f ≡ g
canonical_bytes_injective f g v w e =
    layout_injective f g v w
      (ground (arith, canonical_bytes-layout f v, canonical_bytes-layout g w))
