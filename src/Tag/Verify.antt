-- ===== src/Tag/Verify.antt =====
-- When the verifier accepts, and what the tags of one key and mask have in common.
use true_pad.Base.{ℕ_discrete, All-append, All-replicate}
use true_pad.Base.Bits.{bit_or_zero_parts, bit_xor_zero_eq, bit_xor_self}
use true_pad.Base.Xor.{
  xor_bytes, length-xor_bytes, xor_bytes-IsBytes, xor_bytes_cancel, xor_bytes_mask,
}
use true_pad.Field.{polyval}
use true_pad.Field.Polyval.{polyval_total, polyval-xor_bytes}
use true_pad.Direction.{Direction, a_to_b, b_to_a}
use true_pad.Tag.{
  CanonicalFields, canonical_bytes, wc_hash, wc_tag, diff_bits, tags_equal, padded_length,
  domain_separator, direction_byte,
}
use true_pad.Tag.Layout.{IsValid, layout, header_tail, canonical_bytes-layout, length-layout}
use true_pad.Base.{
  ℕ, ◌%◌, ◌≤◌, ◌<◌, ◌≡◌, ◌≢◌, ◌↔◌, inl, inr, refl, sym, ap, ap₂, ◌∙◌, bit_or, bit_xor, true, false,
  not, ◌||◌, [], ◌∷◌, none, some, arith, Bytes, IsByte, IsBytes, length, ◌==◌, if◌then◌else◌,
  Option-cases,
}

direction_byte-IsByte : (d : Direction) → direction_byte d < 256
direction_byte-IsByte a_to_b = omega arith
direction_byte-IsByte b_to_a = omega arith

header_tail-IsBytes : (f : CanonicalFields) → IsBytes (header_tail f)
header_tail-IsBytes f = omega (arith, direction_byte-IsByte f.direction)

pub layout-IsBytes : (f : CanonicalFields) → IsValid f → IsBytes (layout f)
layout-IsBytes f v = All-append IsByte domain_separator _ (omega arith) (
    All-append IsByte f.pair_id _ v.pair_id_bytes (
      All-append IsByte (header_tail f) _ (header_tail-IsBytes f) (
        All-append IsByte f.ciphertext _ v.ciphertext_bytes
          (All-replicate IsByte _ 0 (omega arith)))))

layout_whole : (f : CanonicalFields) → IsValid f → length (layout f) % 16 ≡ 0
layout_whole f v = omega (arith, length-layout f v)

-- Valid fields have a hash of sixteen bytes.
pub wc_hash_total :
    (key : Bytes) (f : CanonicalFields)
    → length key ≡ 16
    → IsValid f
    → (h : Bytes) × (wc_hash key f ≡ some h) × (length h ≡ 16) × IsBytes h
unfolding wc_hash
wc_hash_total key f lk v =
    let (h, e, l, b) = (polyval_total key (layout f)).0 (lk, layout_whole f v) in
    (h, rw (canonical_bytes-layout f v) e, l, b)

-- With valid fields, a key of sixteen bytes and a mask of sixteen bytes there is a tag, of sixteen
-- bytes, and the mask takes it back to the hash.
pub wc_tag_total :
    (key mask : Bytes) (f : CanonicalFields)
    → length key ≡ 16
    → length mask ≡ 16
    → IsBytes mask
    → IsValid f
    → (t : Bytes) × (wc_tag key mask f ≡ some t)
      × (length t ≡ 16)
      × IsBytes t
      × (wc_hash key f ≡ some (xor_bytes t mask))
unfolding wc_tag
wc_tag_total key mask f lk lm bm v =
    let (h, e, l, b) = wc_hash_total key f lk v in
    let m : (length mask == 16) ≡ true = ground arith in
    (
      xor_bytes h mask,
      rw (m, e) refl,
      omega (arith, length-xor_bytes h mask (omega arith)),
      xor_bytes-IsBytes h mask b bm,
      e ∙ ap some (sym (xor_bytes_cancel h mask (omega arith))),
    )

diff_bits_zero :
    (d : ℕ) (a b : Bytes) → length a ≡ length b → diff_bits d a b ≡ 0 → (d ≡ 0) × (a ≡ b)
unfolding diff_bits
diff_bits_zero d [] [] l h = (h, refl)
diff_bits_zero d [] (y ∷ b) l h = absurd (omega arith)
diff_bits_zero d (x ∷ a) [] l h = absurd (omega arith)
diff_bits_zero d (x ∷ a) (y ∷ b) l h =
    let (z, e) = diff_bits_zero (bit_or d (bit_xor x y)) a b (omega arith) h in
    let (dz, xz) = bit_or_zero_parts d (bit_xor x y) z in (dz, ap₂ ◌∷◌ (bit_xor_zero_eq x y xz) e)

diff_bits_self : (a : Bytes) → diff_bits 0 a a ≡ 0
unfolding diff_bits
diff_bits_self [] = refl
diff_bits_self (x ∷ a) = rw bit_xor_self (diff_bits_self a)

-- The comparison accepts exactly the equal tags of sixteen bytes.
pub tags_equal_iff : (a b : Bytes) → (tags_equal a b ≡ true) ↔ ((a ≡ b) × (length a ≡ 16))
unfolding tags_equal
tags_equal_iff a b = (accepted, equal)
  where
    accepted :
        (if not (length a == 16) || not (length b == 16) then false else diff_bits 0 a b == 0)
          ≡ true
        → (a ≡ b) × (length a ≡ 16)
    accepted h =
        let la : length a ≡ 16 = ground arith in
        let lb : length b ≡ 16 = ground arith in
        let z : diff_bits 0 a b ≡ 0 = ground arith in ((diff_bits_zero 0 a b (omega arith) z).1, la)

    equal :
        (a ≡ b) × (length a ≡ 16)
        → (if not (length a == 16) || not (length b == 16) then false else diff_bits 0 a b == 0)
          ≡ true
    equal (e, l) = rw (← e) (ground (arith, diff_bits_self a))

hash_of : (key : Bytes) (f : CanonicalFields) → IsValid f → wc_hash key f ≡ polyval key (layout f)
unfolding wc_hash
hash_of key f v = rw (canonical_bytes-layout f v)

-- The difference of two tags under one key and one mask does not depend on the mask: it is the hash
-- of the difference of the canonical bytes. So a mask must serve one record only.
pub wc_tag_mask_reuse :
    (key mask t u : Bytes) (f g : CanonicalFields)
    → length key ≡ 16
    → length mask ≡ 16
    → IsBytes mask
    → IsValid f
    → IsValid g
    → length f.ciphertext ≡ length g.ciphertext
    → wc_tag key mask f ≡ some t
    → wc_tag key mask g ≡ some u
    → polyval key (xor_bytes (layout f) (layout g)) ≡ some (xor_bytes t u)
wc_tag_mask_reuse key mask t u f g lk lm bm v w l et eu =
    let (t', tag_f, lt, bt, hash_f) = wc_tag_total key mask f lk lm bm v in
    let (u', tag_g, lu, bu, hash_g) = wc_tag_total key mask g lk lm bm w in
    let et' : t' ≡ t = ground arith in
    let eu' : u' ≡ u = ground arith in
    let lt' : length t ≤ length mask = omega (arith, ap length et') in
    let lu' : length u ≤ length mask = omega (arith, ap length eu') in
    let sizes : length (layout f) ≡ length (layout g) =
      omega (arith, length-layout f v, length-layout g w, ap padded_length l) in
    let pf : polyval key (layout f) ≡ some (xor_bytes t mask) =
      sym (hash_of key f v) ∙ hash_f ∙ ap (λ x. some (xor_bytes x mask)) et' in
    let pg : polyval key (layout g) ≡ some (xor_bytes u mask) =
      sym (hash_of key g w) ∙ hash_g ∙ ap (λ x. some (xor_bytes x mask)) eu' in
    polyval-xor_bytes key (layout f) (layout g) lk (layout-IsBytes f v) (layout-IsBytes g w) sizes
      (layout_whole f v)
    ∙ rw (pf, pg) (ap some (xor_bytes_mask t u mask lt' lu'))

polyval-length : (h m t : Bytes) → polyval h m ≡ some t → length t ≡ 16
polyval-length h m t e =
    let (total, fails) = polyval_total h m in
    elim (ℕ_discrete (length h) 16) [
      | no n ↦ absurd (none≢some t (sym (fails (inl n)) ∙ e))
      | yes lh ↦ elim (ℕ_discrete (length m % 16) 0) [
        | no n ↦ absurd (none≢some t (sym (fails (inr n)) ∙ e))
        | yes lm ↦ same_length (total (lh, lm))
      ]
    ]
  where
    none≢some : (t' : Bytes) → none ≢ some t'
    none≢some t' q = ground arith

    same_length : (u : Bytes) × (polyval h m ≡ some u) × (length u ≡ 16) × IsBytes u → length t ≡ 16
    same_length (u, f, l, _) = let same_t : u ≡ t = ground arith in ap length (sym same_t) ∙ l

-- Every tag has sixteen bytes.
pub wc_tag-length :
    (key mask t : Bytes) (f : CanonicalFields) → wc_tag key mask f ≡ some t → length t ≡ 16
unfolding wc_tag wc_hash
wc_tag-length key mask t f e =
    let l : length mask ≡ 16 = ground arith in
    elim (Option-cases (canonical_bytes f)) [
      | inl n ↦ ground arith
      | inr (m, c) ↦ elim (Option-cases (polyval key m)) [
        | inl n ↦ ground arith
        | inr (h, p) ↦
            let q : xor_bytes h mask ≡ t = ground arith in
            let lh = polyval-length key m h p in
            omega (arith, ap length q, length-xor_bytes h mask (omega arith))
      ]
    ]
