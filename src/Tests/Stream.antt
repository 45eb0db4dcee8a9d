-- ===== src/Tests/Stream.antt =====
-- A page with a device's video that is loaded twice.
use droidpool.Prelude.{List, refl, true, false, [], ◌∷◌, some, none, codes, text_eq, arith}
use droidpool.Exec.{ok}
use droidpool.Scrcpy.Stream.{Frame}
use droidpool.Api.Sessions.{Sessions}
use droidpool.Api.Live.{frame, timeout}
use droidpool.Api.Stream.{Turn, handle_h264_stream}
use droidpool.Api.Stream.Left.{TakenOver, takes_over, handle_h264_stream-Yields}
use droidpool.Tests.Wall.{device}

abbrev key : Frame
key = record { pts = 5; config = false; key_frame = true; payload = 1 ∷ 2 ∷ [] }

abbrev turns : List Turn
turns =
    record { cancelled = false; read = frame key; writes = 3 }
    ∷ record { cancelled = true; read = timeout true; writes = 3 }
    ∷ []

abbrev sessions : Sessions
sessions = record {
  live = record { id = codes "n-2"; gen = 1; ctrl = none } ∷ [];
  next = 1;
  cancelled = [];
}

handle_h264_stream-Yields_example :
    TakenOver
      (codes "n-1")
      (codes "n-2")
      sessions
      (handle_h264_stream
        (codes "s.jar")
        27200
        (ok device)
        true
        (some (some 7))
        turns
        (takes_over (codes "n-1") 27200)
        sessions).1
unfolding text_eq
handle_h264_stream-Yields_example =
    handle_h264_stream-Yields (codes "n-1") (codes "n-2") refl (codes "s.jar") 27200 device (some 7)
      turns sessions refl refl (omega arith)
