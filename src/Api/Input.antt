-- ===== src/Api/Input.antt =====
-- internal/api/wall.go: the input that a wall sends to a device, over scrcpy where the device has a
-- live session and over adb else. The float product in `Swipe` is a parameter. A request is `none`
-- if its body is not the JSON that is asked for.
pub mod Fresh
use droidpool.Prelude.{
  ℕ, ◌+◌, ◌-◌, ◌*◌, ◌%◌, ◌^◌, ltb, leb, ◌==◌, Bool, true, false, Option, none, some, if◌then◌else◌,
  Text, codes, text_eq,
}
use droidpool.Prelude.Int.{ℤ, pos, negsuc}
use droidpool.Exec.{Result, ok, err}
use droidpool.Pool.Lease.{Device}
use droidpool.Scrcpy.Control.{Channel, ControlError, Outcome, tap, key, text}
use droidpool.Scrcpy.Swipe.{Scaled, swipe}
use droidpool.Adb.{Adb, Runs}
use droidpool.Api.Wall.{Shots, invalidate}

pub data InputError : Type 0 where
  bad_input_type unknown_key unknown_touch unknown_key_action bad_pointer adb_failed : InputError
  refused : ControlError → InputError

pub record InputRequest : Type 0 where
  pub kind : Text
  pub x : ℤ
  pub y : ℤ
  pub x2 : ℤ
  pub y2 : ℤ
  pub ms : ℤ
  pub key : Text
  pub text : Text

-- The names of the keys and Android's codes for them.
unfoldable pub key_to_code : Text → Option ℕ
unfolding text_eq
key_to_code k =
    if text_eq k (codes "back")
    then some 4
    else if text_eq k (codes "home")
    then some 3
    else if text_eq k (codes "apps")
    then some 187
    else if text_eq k (codes "power")
    then some 26
    else if text_eq k (codes "enter")
    then some 66
    else if text_eq k (codes "del")
    then some 67
    else if text_eq k (codes "up")
    then some 19
    else if text_eq k (codes "down")
    then some 20
    else if text_eq k (codes "left")
    then some 21
    else if text_eq k (codes "right")
    then some 22
    else if text_eq k (codes "volup")
    then some 24
    else if text_eq k (codes "voldn")
    then some 25
    else none

abbrev pub Injected : Type 0
Injected = Option InputError × Channel

abbrev pub refuse : InputError → Channel → Injected
refuse e c = (some e, c)

abbrev pub as_injected : Outcome → Injected
as_injected (none, c) = (none, c)
as_injected (some e, c) = (some (refused e), c)

-- time.Duration(ms) * time.Millisecond, in 64 bits
unfoldable pub milliseconds : ℤ → ℤ
milliseconds (pos n) =
    let p = (n * 10 ^ 6) % 2 ^ 64 in if ltb p (2 ^ 63) then pos p else negsuc (2 ^ 64 - p - 1)
milliseconds (negsuc n) =
    let p = ((n + 1) * 10 ^ 6) % 2 ^ 64 in
    if p == 0 then pos 0 else if leb p (2 ^ 63) then negsuc (p - 1) else pos (2 ^ 64 - p)

abbrev press : Option ℕ → Channel → Injected
press none c = refuse unknown_key c
press (some code) c = as_injected (key code c)

unfoldable pub inject_via_controller : Scaled → InputRequest → Channel → Injected
unfolding key_to_code text_eq tap key text swipe milliseconds
inject_via_controller scaled r c =
    if text_eq r.kind (codes "tap")
    then as_injected (tap r.x r.y c)
    else if text_eq r.kind (codes "swipe")
    then as_injected (swipe scaled r.x r.y r.x2 r.y2 (milliseconds r.ms) c)
    else if text_eq r.kind (codes "key")
    then press (key_to_code r.key) c
    else if text_eq r.kind (codes "text")
    then as_injected (text r.text c)
    else refuse bad_input_type c

abbrev unless_done : Bool × Runs → Option InputError × Runs
unless_done (true, runs) = (none, runs)
unless_done (false, runs) = (some adb_failed, runs)

unfoldable pub inject_via_adb : Adb → Text → InputRequest → Runs → Option InputError × Runs
unfolding text_eq
inject_via_adb a serial r runs =
    if text_eq r.kind (codes "tap")
    then unless_done (droidpool.Adb.tap a serial r.x r.y runs)
    else if text_eq r.kind (codes "swipe")
    then unless_done (droidpool.Adb.swipe a serial r.x r.y r.x2 r.y2 r.ms runs)
    else if text_eq r.kind (codes "key")
    then unless_done (droidpool.Adb.key a serial r.key runs)
    else if text_eq r.kind (codes "text")
    then unless_done (droidpool.Adb.text a serial r.text runs)
    else (some bad_input_type, runs)

-- What the handler of input answers. Its way is over scrcpy if `over_scrcpy`.
pub data InputAnswer : Type 0 where
  no_adb missing bad_json : InputAnswer
  injected : Bool → InputAnswer
  bad_type : InputAnswer
  failed : InputError → InputAnswer

abbrev pub settled : Text → Bool → Option InputError → Shots → InputAnswer × Shots
settled serial over_scrcpy none shots = (injected over_scrcpy, invalidate serial shots)
settled serial over_scrcpy (some bad_input_type) shots = (bad_type, shots)
settled serial over_scrcpy (some e) shots = (failed e, shots)

abbrev pub by_scrcpy : Text → Injected → Shots → Runs → InputAnswer × Shots × Runs × Option Channel
by_scrcpy serial (e, c) shots runs =
    let (a, s) = settled serial true e shots in (a, s, runs, some c)

abbrev pub by_adb :
    Text → Option InputError × Runs → Shots → InputAnswer × Shots × Runs × Option Channel
by_adb serial (e, runs) shots = let (a, s) = settled serial false e shots in (a, s, runs, none)

abbrev inject :
    Adb
    → Scaled
    → Text
    → InputRequest
    → Shots
    → Runs
    → Option Channel
    → InputAnswer × Shots × Runs × Option Channel
inject a scaled serial r shots runs (some c) =
    by_scrcpy serial (inject_via_controller scaled r c) shots runs
inject a scaled serial r shots runs none = by_adb serial (inject_via_adb a serial r runs) shots

-- `screen` is none if no adb is configured, `found` is what the store has under the id, and the
-- channel is that of the device's live session, if it has one.
unfoldable pub handle_input :
    Option Adb
    → Scaled
    → Result Device
    → Option InputRequest
    → Shots
    → Runs
    → Option Channel
    → InputAnswer × Shots × Runs × Option Channel
unfolding invalidate inject_via_controller inject_via_adb
handle_input none scaled found r shots runs ctrl = (no_adb, shots, runs, ctrl)
handle_input (some a) scaled (err e) r shots runs ctrl = (missing, shots, runs, ctrl)
handle_input (some a) scaled (ok d) none shots runs ctrl = (bad_json, shots, runs, ctrl)
handle_input (some a) scaled (ok d) (some r) shots runs ctrl =
    inject a scaled d.adb_addr r shots runs ctrl
