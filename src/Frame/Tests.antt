-- ===== src/Frame/Tests.antt =====
-- The frame's theorems on small inputs.
use true_pad.Frame.{build_frame, parse_frame}
use true_pad.Frame.RoundTrip.{parse_frame-build_frame}
use true_pad.Base.{◌≡◌, [], ◌∷◌, some, arith, Bytes, length}

abbrev word : Bytes
word = 104 ∷ 105 ∷ []

parse_frame-build_frame_example :
    (frame : Bytes) × (build_frame word 8 ≡ some frame)
    × (length frame ≡ 8)
    × (parse_frame frame ≡ some word)
parse_frame-build_frame_example = parse_frame-build_frame word 8 (omega arith) (omega arith)

abbrev framed_word : Bytes
framed_word = 2 ∷ 0 ∷ 0 ∷ 0 ∷ 104 ∷ 105 ∷ 0 ∷ []
