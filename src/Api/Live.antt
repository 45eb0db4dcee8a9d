-- ===== src/Api/Live.antt =====
-- internal/api/ws.go: how the socket of a device starts, sends the video and says why it closes.
-- Accepting the socket, starting scrcpy and whether a write succeeds are arguments; pings and the
-- deadlines of writes are left out.
pub mod Reasons
pub mod Opened
use droidpool.Prelude.{
  ℕ, ◌+◌, ◌-◌, Bool, true, false, not, ◌&&◌, [], ◌∷◌, ◌++◌, Option, none, some, if◌then◌else◌, ltb,
  leb, ◌==◌, is_empty, Text, length, take,
}
use droidpool.Exec.{Result, ok, err}
use droidpool.Pool.Lease.{Device}
use droidpool.Scrcpy.BigEndian.{Bytes}
use droidpool.Scrcpy.Stream.{Frame}
use droidpool.Api.Sessions.{Sessions, acquire_capped, set_controller, release}

-- The flags in front of a frame: 1 for a configuration, 2 for a key frame.
unfoldable pub frame_message : Frame → Bytes
frame_message f = ((if f.config then 1 else 0) + (if f.key_frame then 2 else 0)) ∷ f.payload

-- Reading a frame: a timeout tells whether the process on the device still runs.
pub data FrameRead : Type 0 where
  frame : Frame → FrameRead
  timeout : Bool → FrameRead
  read_failed : FrameRead

pub data PumpEnd : Type 0 where
  session_cancelled device_gone video_failed write_timed_out : PumpEnd

-- One turn of the pump: what is written, and the end of the pump if it ends.
unfoldable pub pump_turn : Bool → FrameRead → Bool → Option Bytes × Option PumpEnd
unfolding frame_message
pump_turn true r written = (none, some session_cancelled)
pump_turn false (timeout alive) written = (none, if alive then none else some device_gone)
pump_turn false read_failed written = (none, some video_failed)
pump_turn false (frame f) written =
    (some (frame_message f), if written then none else some write_timed_out)

abbrev pub ws_close_reason_max : ℕ
ws_close_reason_max = 123

abbrev in_bytes : ℕ → ℕ → ℕ → Bool
in_bytes lo hi c = leb lo c && leb c hi

abbrev is_tail : ℕ → Bool
is_tail c = in_bytes 0x80 0xbf c

abbrev second_of_3 : ℕ → ℕ → Bool
second_of_3 a b =
    if a == 0xe0
    then in_bytes 0xa0 0xbf b
    else if a == 0xed
    then in_bytes 0x80 0x9f b
    else is_tail b

abbrev second_of_4 : ℕ → ℕ → Bool
second_of_4 a b =
    if a == 0xf0
    then in_bytes 0x90 0xbf b
    else if a == 0xf4
    then in_bytes 0x80 0x8f b
    else is_tail b

-- The length of the character that the bytes start with, and 0 if that is none of UTF-8.
unfoldable pub rune_length : Text → ℕ
rune_length [] = 0
rune_length (a ∷ []) = if ltb a 0x80 then 1 else 0
rune_length (a ∷ b ∷ []) =
    if ltb a 0x80 then 1 else if in_bytes 0xc2 0xdf a && is_tail b then 2 else 0
rune_length (a ∷ b ∷ c ∷ []) =
    if ltb a 0x80
    then 1
    else if in_bytes 0xc2 0xdf a && is_tail b
    then 2
    else if in_bytes 0xe0 0xef a && (second_of_3 a b && is_tail c)
    then 3
    else 0
rune_length (a ∷ b ∷ c ∷ d ∷ s) =
    if ltb a 0x80
    then 1
    else if in_bytes 0xc2 0xdf a && is_tail b
    then 2
    else if in_bytes 0xe0 0xef a && (second_of_3 a b && is_tail c)
    then 3
    else if in_bytes 0xf0 0xf4 a && (second_of_4 a b && (is_tail c && is_tail d))
    then 4
    else 0

-- strings.ToValidUTF8(s, ""), of which the next `kept` bytes belong to a character.
unfoldable pub to_valid : ℕ → Text → Text
unfolding rune_length
to_valid kept [] = []
to_valid kept (c ∷ s) =
    let n = if kept == 0 then rune_length (c ∷ s) else kept in
    let rest = to_valid (n - 1) s in if n == 0 then rest else c ∷ rest

-- The reason ends in … if it was cut.
unfoldable pub close_reason : Text → Text
unfolding to_valid
close_reason s =
    if leb (length s) ws_close_reason_max
    then s
    else to_valid 0 (take (ws_close_reason_max - 3) s) ++ (0xe2 ∷ 0x80 ∷ 0xa6 ∷ [])

abbrev pub ws_max_devices : ℕ
ws_max_devices = 16

-- What becomes of scrcpy: it does not start, or has no control, or it has a controller, and the
-- greeting is sent or not.
pub data Started : Type 0 where
  start_failed control_failed : Started
  started : ℕ → Bool → Started

pub data Opening : Type 0 where
  missing not_accepted no_scrcpy too_many_sessions scrcpy_failed no_control no_greeting : Opening
  running : ℕ → ℕ → Opening

-- A session that does not come up is released again.
abbrev come_up : Text → ℕ → ℕ → Started → Sessions → Opening × Sessions
come_up id gen port start_failed h = (scrcpy_failed, release id gen h)
come_up id gen port control_failed h = (no_control, release id gen h)
come_up id gen port (started ctrl greeted) h =
    let held = set_controller id gen ctrl h in
    if greeted then (running gen port, held) else (no_greeting, release id gen held)

abbrev pub after_acquire : Text → Started → Option (ℕ × ℕ) × Sessions → Opening × Sessions
after_acquire id st (none, h) = (too_many_sessions, h)
after_acquire id st (some (gen, port), h) = come_up id gen port st h

-- The start of the handler, up to its loops.
unfoldable pub open_socket :
    Text → ℕ → Result Device → Bool → Started → Sessions → Opening × Sessions
unfolding acquire_capped set_controller release
open_socket jar port_base (err e) accepted st h = (missing, h)
open_socket jar port_base (ok d) accepted st h =
    if not accepted
    then (not_accepted, h)
    else if is_empty jar
    then (no_scrcpy, h)
    else after_acquire d.id st (acquire_capped d.id port_base ws_max_devices h)
