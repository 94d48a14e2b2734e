-- ===== src/Tag/Tests.antt =====
-- The tag's theorems on small inputs.
use true_pad.Tag.{CanonicalFields, canonical_bytes, wc_hash, wc_tag, tags_equal}
use true_pad.Tag.Layout.{IsValid, layout, canonical_bytes-layout}
use true_pad.Tag.Injective.{canonical_bytes_injective}
use true_pad.Tag.Verify.{wc_tag_total, tags_equal_iff, wc_tag_mask_reuse}
use true_pad.Direction.{a_to_b}
use true_pad.Field.{polyval}
use true_pad.Base.Xor.{xor_bytes}
use true_pad.Base.{every_byte-IsBytes}
use true_pad.Base.{◌≡◌, ◌↔◌, refl, true, [], ◌∷◌, some, arith, Bytes, IsBytes, length}

abbrev bytes_16 : Bytes
bytes_16 = 0 ∷ 1 ∷ 2 ∷ 3 ∷ 4 ∷ 5 ∷ 6 ∷ 7 ∷ 8 ∷ 9 ∷ 10 ∷ 11 ∷ 12 ∷ 13 ∷ 14 ∷ 255 ∷ []

abbrev record_a : CanonicalFields
record_a = record {
  pair_id = bytes_16;
  direction = a_to_b;
  sequence = 3;
  start_offset = 40;
  ciphertext = 9 ∷ 8 ∷ 7 ∷ [];
}

record_a-IsValid : IsValid record_a
record_a-IsValid = record {
  pair_id_length = refl;
  pair_id_bytes = every_byte-IsBytes bytes_16 refl;
  sequence_safe = omega arith;
  start_safe = omega arith;
  ciphertext_length = omega arith;
  ciphertext_bytes = every_byte-IsBytes (9 ∷ 8 ∷ 7 ∷ []) refl;
}

canonical_bytes-layout_example : canonical_bytes record_a ≡ some (layout record_a)
canonical_bytes-layout_example = canonical_bytes-layout record_a record_a-IsValid

canonical_bytes_injective_example : record_a ≡ record_a
canonical_bytes_injective_example =
    canonical_bytes_injective record_a record_a record_a-IsValid record_a-IsValid refl

wc_tag_total_example :
    (t : Bytes) × (wc_tag bytes_16 bytes_16 record_a ≡ some t)
    × (length t ≡ 16)
    × IsBytes t
    × (wc_hash bytes_16 record_a ≡ some (xor_bytes t bytes_16))
wc_tag_total_example =
    wc_tag_total bytes_16 bytes_16 record_a refl refl (every_byte-IsBytes bytes_16 refl)
      record_a-IsValid

tags_equal_iff_example :
    (tags_equal bytes_16 bytes_16 ≡ true) ↔ ((bytes_16 ≡ bytes_16) × (length bytes_16 ≡ 16))
tags_equal_iff_example = tags_equal_iff bytes_16 bytes_16

abbrev tag_a : Bytes
tag_a =
    (wc_tag_total bytes_16 bytes_16 record_a refl refl (every_byte-IsBytes bytes_16 refl)
      record_a-IsValid).0

tag_a-made : wc_tag bytes_16 bytes_16 record_a ≡ some tag_a
tag_a-made =
    (wc_tag_total bytes_16 bytes_16 record_a refl refl (every_byte-IsBytes bytes_16 refl)
      record_a-IsValid).1

wc_tag_mask_reuse_example :
    polyval bytes_16 (xor_bytes (layout record_a) (layout record_a)) ≡ some (xor_bytes tag_a tag_a)
wc_tag_mask_reuse_example =
    wc_tag_mask_reuse bytes_16 bytes_16 tag_a tag_a record_a record_a refl refl
      (every_byte-IsBytes bytes_16 refl) record_a-IsValid record_a-IsValid refl tag_a-made
      tag_a-made
