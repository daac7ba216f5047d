-- ===== src/Tests/Wiring.antt =====
-- Frames and strings on concrete inputs.
use dispatchd.Amqp.Types.{WireFrame}
use dispatchd.Wire.{write_frame_body, write_frame, read_frame}
use dispatchd.Wire.Frames.{IsFrame, read_frame-write_frame_body}
use dispatchd.Common.{[], arith, bytes, done, refl, some, ◌++◌, ◌∷◌, ◌≡◌}

abbrev a_frame : WireFrame
a_frame = record { frame_type = 3; channel = 258; payload = bytes "abc" }

a_frame-IsFrame : IsFrame a_frame
a_frame-IsFrame = record { frame_type = omega arith; channel = omega arith; size = omega arith }

write_frame_test : write_frame a_frame ≡ 3 ∷ 1 ∷ 2 ∷ 0 ∷ 0 ∷ 0 ∷ 3 ∷ 97 ∷ 98 ∷ 99 ∷ 206 ∷ []
unfolding write_frame
write_frame_test = refl

read_frame-write_frame_body_example :
    read_frame (write_frame_body a_frame ++ 206 ∷ 1 ∷ []) ≡ done (some (a_frame, 1 ∷ []))
read_frame-write_frame_body_example =
    read_frame-write_frame_body a_frame a_frame-IsFrame 206 (1 ∷ [])
