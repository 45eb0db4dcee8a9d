-- ===== src/Tests/Scrcpy.antt =====
-- Messages to and from the scrcpy server.
use droidpool.Prelude.{◌≡◌, true, false, ◌++◌, [], ◌∷◌, arith}
use droidpool.Scrcpy.Stream.{Frame, read_frame, done}
use droidpool.Scrcpy.Frames.{encode_frame, read_frame-encode_frame}

abbrev frame : Frame
frame = record { pts = 5; config = false; key_frame = true; payload = 1 ∷ 2 ∷ 3 ∷ [] }

read_frame-encode_frame_example : read_frame (encode_frame frame ++ 9 ∷ []) ≡ done frame (9 ∷ [])
read_frame-encode_frame_example =
    read_frame-encode_frame frame (9 ∷ []) (omega arith) (omega arith) (omega arith)
