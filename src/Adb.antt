-- ===== src/Adb.antt =====
-- internal/adb/adb.go: what the device wall and the health check do over adb. Running adb is a
-- parameter, and so are the picture codecs, without which ScreenshotJPEG is left out.
pub mod Probed
pub mod Typed
use droidpool.Prelude.{
  ℕ, zero, suc, ◌+◌, ◌*◌, ◌^◌, Bool, true, false, not, ◌&&◌, ◌||◌, List, [], ◌∷◌, ◌++◌, Option,
  none, some, if◌then◌else◌, ltb, leb, ◌==◌, is_empty, is_some, Text, codes, text_eq, length, take,
  drop,
}
use droidpool.Prelude.Decimal.{decimal}
use droidpool.Prelude.Int.{ℤ, pos, negsuc}
use droidpool.Prelude.Strings.{trim_space, trim_left_by, trim_right_by}
use droidpool.Manager.Index.{strip_prefix}
use droidpool.Api.Urls.{cut}

-- The argument lists that adb was run with, the newest first.
abbrev pub Runs : Type 0
Runs = List (List Text)

-- What the newest run printed, or its error, given the ones before it.
pub record Adb : Type 0 where
  pub output : Runs → Option Text

abbrev pub itoa : ℤ → Text
itoa (pos n) = decimal n
itoa (negsuc n) = b'-' ∷ decimal (suc n)

abbrev contains : Text → Text → Bool
contains s p = is_some (cut p s)

abbrev pub is_connected : Option Text → Bool
is_connected none = false
is_connected (some s) = not (contains s (codes "failed") || contains s (codes "refused"))

abbrev pub says_one : Option Text → Bool
says_one none = false
says_one (some out) = text_eq (trim_space out) (codes "1")

abbrev pub probe_args : Text → List Text
probe_args serial =
    codes "-s" ∷ serial ∷ codes "shell" ∷ codes "getprop" ∷ codes "sys.boot_completed" ∷ []

abbrev pub connect_args : Text → List Text
connect_args addr = codes "connect" ∷ addr ∷ []

-- strings.NewReplacer with one rule for each of these bytes.
unfoldable pub is_special : ℕ → Bool
is_special c =
    c == b'\''
    || c == b'"'
    || c == b'&'
    || c == b'<'
    || c == b'>'
    || c == b'('
    || c == b')'
    || c == b'|'
    || c == b';'
    || c == b'$'
    || c == b'`'

unfoldable pub escape_text : Text → Text
escape_text [] = []
escape_text (c ∷ s) =
    let rest = escape_text s in
    if c == b' ' then codes "%s" ++ rest else if is_special c then b'\\' ∷ c ∷ rest else c ∷ rest

unfoldable pub key_name : Text → Option Text
unfolding text_eq
key_name k =
    if text_eq k (codes "back")
    then some (codes "KEYCODE_BACK")
    else if text_eq k (codes "home")
    then some (codes "KEYCODE_HOME")
    else if text_eq k (codes "apps")
    then some (codes "KEYCODE_APP_SWITCH")
    else if text_eq k (codes "power")
    then some (codes "KEYCODE_POWER")
    else if text_eq k (codes "enter")
    then some (codes "KEYCODE_ENTER")
    else if text_eq k (codes "del")
    then some (codes "KEYCODE_DEL")
    else if text_eq k (codes "up")
    then some (codes "KEYCODE_DPAD_UP")
    else if text_eq k (codes "down")
    then some (codes "KEYCODE_DPAD_DOWN")
    else if text_eq k (codes "left")
    then some (codes "KEYCODE_DPAD_LEFT")
    else if text_eq k (codes "right")
    then some (codes "KEYCODE_DPAD_RIGHT")
    else if text_eq k (codes "volup")
    then some (codes "KEYCODE_VOLUME_UP")
    else if text_eq k (codes "voldn")
    then some (codes "KEYCODE_VOLUME_DOWN")
    else none

-- Four bytes, the highest first.
abbrev pub big_endian : Text → ℕ
big_endian (a ∷ b ∷ c ∷ d ∷ s) = a * 2 ^ 24 + (b * 2 ^ 16 + (c * 2 ^ 8 + d))
big_endian s = 0

unfoldable pub png_size : Text → Option (ℕ × ℕ)
unfolding text_eq
png_size b =
    let w = big_endian (drop 16 b) in
    let h = big_endian (drop 20 b) in
    if ltb (length b) 24 || not (text_eq (take 3 (drop 1 b)) (codes "PNG"))
    then none
    else if w == 0 || h == 0
    then none
    else some (w, h)

abbrev after_user : Text → Option (Text × Text) → Text
after_user s none = s
after_user s (some (front, back)) = back

abbrev without_brace : Text → Text
without_brace s = trim_one (trim_space s)
  where
    trim_one : Text → Text
    trim_one [] = []
    trim_one (c ∷ []) = if c == b'}' then [] else c ∷ []
    trim_one (c ∷ d ∷ s) = c ∷ trim_one (d ∷ s)

abbrev app_of : Option Text → Text
app_of none = []
app_of (some out) = let s = trim_space out in without_brace (after_user s (cut (codes " u0 ") s))

-- The locks of the serials, by number.
pub record Locks : Type 0 where
  pub held : List (Text × ℕ)
  pub next : ℕ

unfoldable pub lock_of : Text → List (Text × ℕ) → Option ℕ
unfolding text_eq
lock_of serial [] = none
lock_of serial ((s, l) ∷ rest) = if text_eq s serial then some l else lock_of serial rest

abbrev new_or : Locks → Text → Option ℕ → ℕ × Locks
new_or ls serial (some l) = (l, ls)
new_or ls serial none = (ls.next, record { held = (serial, ls.next) ∷ ls.held; next = ls.next + 1 })

unfoldable pub cap_lock_for : Text → Locks → ℕ × Locks
unfolding lock_of
cap_lock_for serial ls = new_or ls serial (lock_of serial ls.held)

module _ (a : Adb) where
  abbrev pub run : List Text → Runs → Option Text × Runs
  run args runs = (a.output (args ∷ runs), args ∷ runs)

  abbrev on_device : Text → List Text → Runs → Option Text × Runs
  on_device serial args = run (codes "-s" ∷ serial ∷ args)

  unfoldable pub connect : Text → Runs → Bool × Runs
  unfolding cut strip_prefix
  connect addr runs = (is_connected (a.output (connect_args addr ∷ runs)), connect_args addr ∷ runs)

  unfoldable pub probe : Text → Runs → Bool × Runs
  unfolding trim_space text_eq
  probe serial runs = (says_one (a.output (probe_args serial ∷ runs)), probe_args serial ∷ runs)

  abbrev probe_if : Text → Bool × Runs → Bool × Runs
  probe_if serial (connected, runs) = if connected then probe serial runs else (false, runs)

  abbrev reconnect_unless : Text → Bool × Runs → Bool × Runs
  reconnect_unless serial (alive, runs) =
      if alive then (true, runs) else probe_if serial (connect serial runs)

  unfoldable pub alive : Text → Runs → Bool × Runs
  unfolding probe connect
  alive serial runs = reconnect_unless serial (probe serial runs)

  abbrev is_done : Option Text × Runs → Bool × Runs
  is_done (r, runs) = (is_some r, runs)

  unfoldable pub tap : Text → ℤ → ℤ → Runs → Bool × Runs
  tap serial x y runs =
      is_done
        (on_device serial (codes "shell" ∷ codes "input" ∷ codes "tap" ∷ itoa x ∷ itoa y ∷ []) runs)

  abbrev swipe_time : ℤ → ℤ
  swipe_time (pos zero) = pos 300
  swipe_time (pos (suc n)) = pos (suc n)
  swipe_time (negsuc n) = pos 300

  unfoldable pub swipe : Text → ℤ → ℤ → ℤ → ℤ → ℤ → Runs → Bool × Runs
  swipe serial x1 y1 x2 y2 ms runs = is_done (
      on_device serial
        (codes "shell"
          ∷ codes "input"
          ∷ codes "swipe"
          ∷ itoa x1
          ∷ itoa y1
          ∷ itoa x2
          ∷ itoa y2
          ∷ itoa (swipe_time ms)
          ∷ [])
        runs)

  abbrev key_event : Text → Option Text → Runs → Bool × Runs
  key_event serial none runs = (false, runs)
  key_event serial (some code) runs =
      is_done (on_device serial (codes "shell" ∷ codes "input" ∷ codes "keyevent" ∷ code ∷ []) runs)

  unfoldable pub key : Text → Text → Runs → Bool × Runs
  unfolding key_name
  key serial name runs = key_event serial (key_name name) runs

  unfoldable pub text : Text → Text → Runs → Bool × Runs
  unfolding escape_text
  text serial s runs =
      if is_empty s
      then (true, runs)
      else is_done (
          on_device serial (codes "shell" ∷ codes "input" ∷ codes "text" ∷ escape_text s ∷ []) runs)

  unfoldable pub screencap_png : Text → Runs → Option Text × Runs
  screencap_png serial runs =
      on_device serial (codes "exec-out" ∷ codes "screencap" ∷ codes "-p" ∷ []) runs

  abbrev with_size : Text → Option (ℕ × ℕ) → Option (Text × ℕ × ℕ)
  with_size raw none = none
  with_size raw (some (w, h)) = some (raw, w, h)

  abbrev sized : Option Text × Runs → Option (Text × ℕ × ℕ) × Runs
  sized (none, runs) = (none, runs)
  sized (some raw, runs) = (with_size raw (png_size raw), runs)

  unfoldable pub screenshot_passthrough : Text → Runs → Option (Text × ℕ × ℕ) × Runs
  unfolding screencap_png png_size
  screenshot_passthrough serial runs = sized (screencap_png serial runs)

  unfoldable pub current_app : Text → Runs → Text × Runs
  unfolding trim_space cut strip_prefix
  current_app serial runs =
      let (out, runs') =
        on_device serial
          (codes "shell"
            ∷ codes "dumpsys"
            ∷ codes "window"
            ∷ codes "|"
            ∷ codes "grep"
            ∷ codes "-m1"
            ∷ codes "mCurrentFocus"
            ∷ [])
          runs in
      (app_of out, runs')
