-- ===== src/Api/Stream.antt =====
-- internal/api/h264.go: `handleH264Stream`, the video of a device as the parts of one answer; and
-- `CloseSessions` of internal/api/api.go. What scrcpy and the connection do is an argument.
pub mod Left
use droidpool.Prelude.{
  ℕ, zero, suc, ◌+◌, Bool, true, false, not, ◌&&◌, List, [], ◌∷◌, ◌++◌, Option, none, some,
  if◌then◌else◌, ltb, is_empty, Text, codes, length,
}
use droidpool.Prelude.Int.{pos}
use droidpool.Adb.{itoa}
use droidpool.Exec.{Result, ok, err}
use droidpool.Pool.Lease.{Device}
use droidpool.Scrcpy.BigEndian.{Bytes}
use droidpool.Scrcpy.Stream.{Frame}
use droidpool.Api.Sessions.{Sessions, acquire, set_controller, release, close_all}
use droidpool.Api.Live.{FrameRead, frame, timeout, read_failed}
use droidpool.Api.Ui.{UiSessions}
use droidpool.Uiagent.{Agent}

abbrev boundary : Text
boundary = codes "droidpoolh264"

abbrev crlf : Text
crlf = 13 ∷ 10 ∷ []

unfoldable pub frame_flags : Frame → Text
frame_flags f =
    (if f.config then codes "config " else []) ++ (if f.key_frame then codes "key" else [])

unfoldable pub part_head : Frame → Text
unfolding frame_flags
part_head f =
    codes "--"
    ++ (boundary
        ++ (crlf
            ++ (codes "Content-Type: video/h264"
                ++ (crlf
                    ++ (codes "Content-Length: "
                        ++ (itoa (pos (length f.payload))
                            ++ (crlf
                                ++ (codes "X-Frame-Flags: "
                                    ++ (frame_flags f ++ (crlf ++ crlf))))))))))

-- One turn of the loop: whether the session is cancelled before it, what reading gives, and how
-- many of the three writes of a part succeed.
pub record Turn : Type 0 where
  pub cancelled : Bool
  pub read : FrameRead
  pub writes : ℕ

abbrev part : Frame → ℕ → Bytes
part f zero = []
part f (suc zero) = part_head f
part f (suc (suc zero)) = part_head f ++ f.payload
part f (suc (suc (suc n))) = part_head f ++ (f.payload ++ crlf)

-- What is written, and whether the loop goes on.
unfoldable pub stream_turn : Turn → Bytes × Bool
unfolding part_head
stream_turn t = if t.cancelled then ([], false) else after_read t.writes t.read
  where
    after_read : ℕ → FrameRead → Bytes × Bool
    after_read n (frame f) = (part f n, ltb 2 n)
    after_read n (timeout alive) = ([], alive)
    after_read n read_failed = ([], false)

unfoldable pub stream_turns : List Turn → Bytes
unfolding stream_turn
stream_turns [] = []
stream_turns (t ∷ ts) =
    let rest = stream_turns ts in
    let (out, more) = stream_turn t in if more then out ++ rest else out

pub data StreamAnswer : Type 0 where
  no_scrcpy missing no_stream scrcpy_failed : StreamAnswer
  streamed : Bytes → StreamAnswer

-- The controller of the session, if it has one.
unfoldable pub keep_controller : Text → ℕ → Option ℕ → Sessions → Sessions
unfolding set_controller
keep_controller id gen none h = h
keep_controller id gen (some c) h = set_controller id gen c h

abbrev pub gen_of : Option (ℕ × ℕ) → ℕ
gen_of none = 0
gen_of (some (gen, port)) = gen

-- `started` is none if scrcpy does not start. `others` is what other requests do to the table while
-- the parts are sent; the session of this generation is released after that.
abbrev pub after_acquired :
    Text
    → Option (Option ℕ)
    → List Turn
    → (Sessions → Sessions)
    → Option (ℕ × ℕ) × Sessions
    → StreamAnswer × Sessions
after_acquired id none turns others (taken, h) = (scrcpy_failed, release id (gen_of taken) h)
after_acquired id (some ctrl) turns others (taken, h) = (
  streamed (stream_turns turns),
  release id (gen_of taken) (others (keep_controller id (gen_of taken) ctrl h)),
)

unfoldable pub handle_h264_stream :
    Text
    → ℕ
    → Result Device
    → Bool
    → Option (Option ℕ)
    → List Turn
    → (Sessions → Sessions)
    → Sessions
    → StreamAnswer × Sessions
unfolding acquire keep_controller release stream_turns
handle_h264_stream jar port_base found flushes started turns others h =
    if is_empty jar then (no_scrcpy, h) else for_device found
  where
    for_device : Result Device → StreamAnswer × Sessions
    for_device (err e) = (missing, h)
    for_device (ok d) =
        if flushes
        then after_acquired d.id started turns others (acquire d.id port_base h)
        else (no_stream, h)

-- How many sessions of both kinds there were.
unfoldable pub close_sessions : Agent → Sessions → UiSessions → ℕ × Sessions × UiSessions
unfolding close_all
close_sessions a h u =
    let (n, h') = close_all h in let (k, u') = droidpool.Api.Ui.close_all a u in (n + k, h', u')
