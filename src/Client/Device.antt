-- ===== src/Client/Device.antt =====
-- cmd/droidpool/main.go: the commands that work on the leased device. What the flags come to is given
-- as arguments.
use droidpool.Prelude.{
  Bool, true, false, not, ◌&&◌, ◌||◌, List, [], ◌∷◌, ◌++◌, Option, none, some, inl, if◌then◌else◌,
  leb, is_empty, is_some, any, Text, codes, text_eq,
}
use droidpool.Prelude.Int.{ℤ, pos, negsuc}
use droidpool.Manager.Index.{strip_prefix}
use droidpool.Api.Urls.{cut}
use droidpool.Adb.{itoa}
use droidpool.Client.{
  Act, Outside, Run, done, fatal, ◌>>=◌, ◌>>◌, load_state, call, adb_dev, has_no,
}

abbrev contains : Text → Text → Bool
contains s p = is_some (cut p s)

abbrev pub battery_args : List Text → List Text
battery_args args = codes "shell" ∷ codes "cmd" ∷ codes "battery" ∷ args

-- The number of a status.
unfoldable pub battery_status : Text → Option Text
unfolding text_eq
battery_status s =
    if text_eq s (codes "charging")
    then some (codes "2")
    else if text_eq s (codes "discharging")
    then some (codes "3")
    else if text_eq s (codes "full")
    then some (codes "5")
    else none

abbrev pub between_1_and_100 : ℤ → Bool
between_1_and_100 (pos n) = leb 1 n && leb n 100
between_1_and_100 (negsuc n) = false

abbrev pub or_exit : Option Text → Run Text
or_exit none = fatal
or_exit (some st) = done st

abbrev pub check : Bool → Run (Unit {0})
check b = if b then done tt else fatal

module _ (o : Outside) where
  abbrev pub went_well : Bool × Text → Bool
  went_well (succeeded, out) =
      succeeded && not (contains out (codes "Bad value") || contains out (codes "Unknown"))

  unfoldable pub run_battery : List Text → Run (Unit {0})
  unfolding adb_dev cut strip_prefix
  run_battery args = do r ← adb_dev o (battery_args args); check (went_well r)

  unfoldable pub set_battery_temp : Option ℤ → Run (Unit {0})
  set_battery_temp none = done tt
  set_battery_temp (some t) = run_battery (codes "set" ∷ codes "temp" ∷ itoa t ∷ [])

  unfoldable pub plug_in : Text → Run (Unit {0})
  plug_in status =
      if text_eq status (codes "charging")
      then run_battery (codes "set" ∷ codes "ac" ∷ codes "1" ∷ [])
      else run_battery (codes "unplug" ∷ [])

  -- `temp` is in tenths of a degree, and none if it is zero.
  unfoldable pub cmd_battery : Bool → ℤ → Text → Option ℤ → Run (Unit {0})
  unfolding battery_status
  cmd_battery reset level status temp = if reset then run_battery (codes "reset" ∷ []) else (do
    check (between_1_and_100 level)
    st ← or_exit (battery_status status)
    run_battery (codes "set" ∷ codes "level" ∷ itoa level ∷ [])
    run_battery (codes "set" ∷ codes "present" ∷ codes "1" ∷ [])
    run_battery (codes "set" ∷ codes "status" ∷ st ∷ [])
    plug_in status
    set_battery_temp temp)

  -- `off` stops the stream.
  unfoldable pub cmd_camera : Bool → Text → Run (Unit {0})
  unfolding call
  cmd_camera off rtsp = do
    check (off || not (is_empty rtsp))
    st ← load_state
    a ←
        call o (codes "PUT") (codes "/api/devices/" ++ (st.device_id ++ codes "/camera"))
          ((codes "rtsp", (if off then [] else rtsp)) ∷ [])
    check (has_no a.failure)

  -- Without `off` there has to be one argument.
  unfoldable pub cmd_location : Bool → List Text → Run (Unit {0})
  unfolding call
  cmd_location off args = do
    loc ← located off args
    st ← load_state
    a ←
        call o (codes "PUT") (codes "/api/devices/" ++ (st.device_id ++ codes "/location"))
          ((codes "location", loc) ∷ [])
    check (has_no a.failure)
    where
      located : Bool → List Text → Run Text
      located true args = done []
      located false [] = fatal
      located false (loc ∷ []) = done loc
      located false (loc ∷ x ∷ args) = fatal

  -- A device that was rebuilt is connected to again.
  unfoldable pub cmd_identity : Bool → Text → List (Text × Text) → Run (Unit {0})
  unfolding call
  cmd_identity reset model others = do
    check (reset || not (is_empty model))
    st ← load_state
    a ←
        call o (codes "PUT") (codes "/api/devices/" ++ (st.device_id ++ codes "/identity"))
          (if reset then [] else (codes "model", model) ∷ others)
    check (has_no a.failure)
    if a.body.rebuilt then reconnect st.adb_addr else done tt
    where
      reconnect : Text → Run (Unit {0})
      reconnect addr s =
          (inl tt, record s { acts = Act.adb (codes "connect" ∷ addr ∷ []) ∷ s.acts })

  unfoldable pub contains_any : Text → List Text → Bool
  unfolding cut strip_prefix
  contains_any s subs = any (λ sub. contains s sub) subs

  -- What the view of the device shows; `center` is boundsCenter, which goes by regular expressions.
  module _ (center : Text → Text → Bool → Option (ℤ × ℤ)) where
    unfoldable pub ui_descs : Run Text
    unfolding adb_dev
    ui_descs = do
      r ← adb_dev o (
          codes "shell"
          ∷ codes
              "rm -f /sdcard/ui.xml; uiautomator dump /sdcard/ui.xml >/dev/null 2>&1; cat /sdcard/ui.xml"
          ∷ [])
      done r.1

    abbrev tap_at : Option (ℤ × ℤ) → Run (Unit {0})
    tap_at none = done tt
    tap_at (some (x, y)) = do
      r ← adb_dev o (codes "shell" ∷ codes "input" ∷ codes "tap" ∷ itoa x ∷ itoa y ∷ [])
      done tt

    unfoldable pub tap_desc : Text → Bool → Run (Unit {0})
    unfolding ui_descs adb_dev
    tap_desc desc exact = do dump ← ui_descs; tap_at (center dump desc exact)
