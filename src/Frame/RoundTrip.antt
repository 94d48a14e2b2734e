-- ===== src/Frame/RoundTrip.antt =====
-- A frame has the record's size and gives its plaintext back.
use true_pad.Base.{length-append, take-append}
use true_pad.Base.Buffer.{
  set_bytes, le_bytes, le_value, set_bytes_gap, zeros-add, zeros, length-zeros, le_value-le_bytes,
}
use true_pad.Frame.{build_frame, parse_frame}
use true_pad.Base.{
  ℕ, ◌+◌, ◌-◌, ◌^◌, ◌≤◌, ◌<◌, ◌≡◌, refl, ap, ◌∙◌, [], ◌++◌, some, arith, Bytes, length, take,
  max_safe,
}

-- The bytes of a frame: the length, the plaintext, zeros.
abbrev pub layout : Bytes → ℕ → Bytes
layout plaintext record_bytes =
    le_bytes 4 (length plaintext) ++ (plaintext ++ zeros (record_bytes - 4 - length plaintext))

pub build_frame-layout :
    (p : Bytes) (f : ℕ) → length p + 4 ≤ f → f ≤ max_safe → build_frame p f ≡ some (layout p f)
unfolding build_frame
build_frame-layout p f fits safe = ground (arith, writes)
  where
    blank : zeros f ≡ zeros 4 ++ (zeros (length p) ++ zeros (f - 4 - length p))
    blank =
        zeros-add 4 (f - 4) f (omega arith)
        ∙ ap (λ t. zeros 4 ++ t) (zeros-add (length p) (f - 4 - length p) (f - 4) (omega arith))

    prefix :
        set_bytes (zeros f) 0 (le_bytes 4 (length p))
        ≡ le_bytes 4 (length p) ++ (zeros (length p) ++ zeros (f - 4 - length p))
    prefix =
        ap (λ t. set_bytes t 0 (le_bytes 4 (length p))) blank
        ∙ set_bytes_gap [] (zeros 4) (zeros (length p) ++ zeros (f - 4 - length p))
            (le_bytes 4 (length p)) 0 refl refl

    writes : set_bytes (set_bytes (zeros f) 0 (le_bytes 4 (length p))) 4 p ≡ layout p f
    writes =
        ap (λ t. set_bytes t 4 p) prefix
        ∙ set_bytes_gap (le_bytes 4 (length p)) (zeros (length p)) (zeros (f - 4 - length p)) p 4
            refl (length-zeros (length p))

pub length-layout : (p : Bytes) (f : ℕ) → length p + 4 ≤ f → length (layout p f) ≡ f
length-layout p f fits =
    omega (arith, length-append p (zeros (f - 4 - length p)), length-zeros (f - 4 - length p))

-- The parser of a text with a readable prefix.
pub parse_frame_layout :
    (n : ℕ) (body : Bytes)
    → n < 2 ^ 32
    → n ≤ length body
    → parse_frame (le_bytes 4 n ++ body) ≡ some (take n body)
unfolding parse_frame
parse_frame_layout n body small fits =
    let e : le_value (le_bytes 4 n) ≡ n = le_value-le_bytes 4 n (omega arith) in ground (arith, e)

-- Framing a plaintext that fits gives exactly one record's bytes, and parsing these bytes gives the
-- plaintext back, whatever the padding.
pub parse_frame-build_frame :
    (p : Bytes) (f : ℕ)
    → length p + 4 ≤ f
    → f ≤ 2 ^ 32
    → (frame : Bytes) × (build_frame p f ≡ some frame)
      × (length frame ≡ f)
      × (parse_frame frame ≡ some p)
parse_frame-build_frame p f fits small = (
  layout p f,
  build_frame-layout p f fits (omega arith),
  length-layout p f fits,
  parse_frame_layout (length p) (p ++ zeros (f - 4 - length p)) (omega arith)
        (omega (arith, length-append p (zeros (f - 4 - length p))))
      ∙ ap some (take-append (length p) p (zeros (f - 4 - length p)) refl),
)
