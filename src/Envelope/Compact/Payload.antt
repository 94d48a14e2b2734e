-- ===== src/Envelope/Compact/Payload.antt =====
-- What the compact decoder's first checks see of a payload that the base64 encoder wrote: no white
-- space, no padding, and a length within the bound.
use true_pad.Base.{
  ℕ, zero, suc, ◌+◌, ◌*◌, ◌/◌, ◌^◌, ◌≤◌, ◌<◌, ◌≡◌, refl, ap, true, false, not, ◌&&◌, List, [], ◌∷◌,
  Bool, arith, Bytes, IsBytes, All, length, get_or, ◌==◌,
}
use true_pad.Base.{dec_lt, ℕ_discrete, &&-right}
use true_pad.Codec.Base64.{b64_char, b64_alphabet, to_base64_url}
use true_pad.Codec.Leb128.{write_groups, write_uleb128}
use true_pad.Codec.Leb128.RoundTrip.{write_last, write_more}
use true_pad.Envelope.Compact.{
  is_space, trim_start, trim_end, keep_unless_last, trim, includes_unit,
}

-- A unit that `trim` keeps and that is not the padding sign.
abbrev pub IsInk : ℕ → Type 0
IsInk c = (is_space c ≡ false) × ((c == b'=') ≡ false)

pub trim_start-ink : (t : List ℕ) → All IsInk t → trim_start t ≡ t
unfolding trim_start
trim_start-ink [] h = refl
trim_start-ink (c ∷ cs) h = rw (h.0.0)

keep-ink : (c : ℕ) (cs : List ℕ) → is_space c ≡ false → keep_unless_last c cs ≡ c ∷ cs
keep-ink c [] h = rw (h)
keep-ink c (d ∷ ds) h = refl

pub trim_end-ink : (t : List ℕ) → All IsInk t → trim_end t ≡ t
unfolding trim_end
trim_end-ink [] h = refl
trim_end-ink (c ∷ cs) h = rw (trim_end-ink cs h.1) (keep-ink c cs h.0.0)

pub trim-ink : (t : List ℕ) → All IsInk t → trim t ≡ t
unfolding trim
trim-ink t h = rw (trim_start-ink t h) (trim_end-ink t h)

pub includes_unit-ink : (t : List ℕ) → All IsInk t → includes_unit b'=' t ≡ false
unfolding includes_unit
includes_unit-ink [] h = refl
includes_unit-ink (c ∷ cs) h = rw (h.0.1, includes_unit-ink cs h.1)

All-get_or : (t : List ℕ) (i d : ℕ) → All IsInk t → IsInk d → IsInk (get_or t i d)
All-get_or [] zero d h k = k
All-get_or [] (suc i) d h k = k
All-get_or (c ∷ cs) zero d h k = h.0
All-get_or (c ∷ cs) (suc i) d h k = All-get_or cs i d h.1 k

is_ink : List ℕ → Bool
is_ink [] = true
is_ink (c ∷ cs) = not (is_space c) && not (c == b'=') && is_ink cs

is_ink-IsInk : (t : List ℕ) → is_ink t ≡ true → All IsInk t
unfolding is_ink
is_ink-IsInk [] h = tt
is_ink-IsInk (c ∷ cs) h = (
  (ground arith, ground arith),
  is_ink-IsInk cs (&&-right (not (is_space c) && not (c == b'=')) (is_ink cs) h),
)

b64_char-IsInk : (i : ℕ) → IsInk (b64_char i)
unfolding b64_char is_ink
b64_char-IsInk i = All-get_or b64_alphabet i 0 (is_ink-IsInk b64_alphabet refl) (refl, refl)

pub to_base64_url-IsInk : (bs : Bytes) → All IsInk (to_base64_url bs)
unfolding to_base64_url
to_base64_url-IsInk [] = tt
to_base64_url-IsInk (a ∷ []) = (b64_char-IsInk _, (b64_char-IsInk _, tt))
to_base64_url-IsInk (a ∷ b ∷ []) = (b64_char-IsInk _, (b64_char-IsInk _, (b64_char-IsInk _, tt)))
to_base64_url-IsInk (a ∷ b ∷ c ∷ bs) = (
  b64_char-IsInk _,
  (b64_char-IsInk _, (b64_char-IsInk _, (b64_char-IsInk _, to_base64_url-IsInk bs))),
)

-- Four characters for three bytes, the last group rounded up.
pub length-to_base64_url : (bs : Bytes) → 3 * length (to_base64_url bs) ≤ 4 * length bs + 2
unfolding to_base64_url
length-to_base64_url [] = omega arith
length-to_base64_url (a ∷ []) = omega arith
length-to_base64_url (a ∷ b ∷ []) = omega arith
length-to_base64_url (a ∷ b ∷ c ∷ bs) = omega (arith, length-to_base64_url bs)

-- A number below `128 ^ j` takes at most `j` groups.
length-write_groups : (j k v : ℕ) → v < 128 ^ j → 0 < j → v < k → length (write_groups k v) ≤ j
length-write_groups zero k v b p f = ground arith
length-write_groups (suc j) zero v b p f = ground arith
length-write_groups (suc j) (suc k) v b p f = elim (dec_lt v 128) [
  | yes l ↦ rw (write_last k v l) (omega arith)
  | no g ↦ rw (write_more k v (omega arith)) (elim (ℕ_discrete j 0) [
    | yes z ↦ let e : 128 ^ suc j ≡ 128 = ap (λ x. 128 ^ suc x) z in ground arith
    | no n ↦
        let e : 128 ^ suc j ≡ 128 * 128 ^ j = omega arith in
        omega (arith, length-write_groups j k (v / 128) (omega arith) (omega arith) (omega arith))
  ])
]

pub length-write_uleb128 : (j v : ℕ) → v < 128 ^ j → 0 < j → length (write_uleb128 v) ≤ j
unfolding write_uleb128
length-write_uleb128 j v b p = length-write_groups j (suc v) v b p (omega arith)

write_groups-IsBytes : (k v : ℕ) → v < k → IsBytes (write_groups k v)
write_groups-IsBytes zero v l = absurd (omega arith)
write_groups-IsBytes (suc k) v l = elim (dec_lt v 128) [
  | yes b ↦ rw (write_last k v b) ((omega arith, tt))
  | no b ↦
      rw (write_more k v (omega arith))
        ((omega arith, write_groups-IsBytes k (v / 128) (omega arith)))
]

pub write_uleb128-IsBytes : (v : ℕ) → IsBytes (write_uleb128 v)
unfolding write_uleb128
write_uleb128-IsBytes v = write_groups-IsBytes (suc v) v (omega arith)

-- Only the empty string has an empty spelling.
pub to_base64_url-nonempty : (bs : Bytes) → 1 ≤ length bs → 1 ≤ length (to_base64_url bs)
unfolding to_base64_url
to_base64_url-nonempty [] h = h
to_base64_url-nonempty (a ∷ []) h = omega arith
to_base64_url-nonempty (a ∷ b ∷ []) h = omega arith
to_base64_url-nonempty (a ∷ b ∷ c ∷ bs) h = omega arith
