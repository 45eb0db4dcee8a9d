-- ===== src/Tests/Wall.antt =====
-- Input from the wall and from a socket.
use droidpool.Prelude.{
  ◌*◌, ◌/◌, ℕ, ◌^◌, ◌≡◌, refl, false, [], ◌∷◌, Option, none, some, Text, codes, text_eq, arith,
}
use droidpool.Exec.{ok}
use droidpool.Adb.{Adb, Runs, tap}
use droidpool.Scrcpy.Control.{pos, negsuc, nonneg, Channel, touch, write}
use droidpool.Api.Wall.{Shot, Shots, get, shot_key}
use droidpool.Scrcpy.Swipe.{Scaled}
use droidpool.Api.Input.{InputAnswer, InputRequest, injected, handle_input, inject_via_adb}
use droidpool.Api.Input.Fresh.{IsShotNow, handle_input-Fresh}
use droidpool.Api.Socket.{WsInput, dispatch_ws_input, touch_action, or_one}
use droidpool.Api.Socket.Lands.{Lands, dispatch_ws_input-Lands}
use droidpool.Pool.State.{ready}
use droidpool.Pool.Time.{zero_time}
use droidpool.Pool.Lease.{Device}

abbrev pub device : Device
device = record {
  id = codes "n-1";
  node = codes "n";
  container = codes "droidpool-n-1";
  adb_addr = codes "h:5001";
  state = ready;
  created_at = zero_time;
  last_healthy = zero_time;
  health_fails = 0;
  egress_proxy = [];
  camera_rtsp = [];
  identity = none;
  mock_location = [];
}

abbrev screen : Channel
screen = record { width = 1080; height = 1920; written = []; closed = false; faults = [] }

abbrev exact : Scaled
exact d i n = d * i / n

abbrev off_right : WsInput
off_right = record {
  kind = codes "touch";
  action = codes "move";
  id = pos 3;
  x = pos 5000;
  y = negsuc 4;
  pressure = nonneg 0 0;
  dx = nonneg 0 0;
  dy = nonneg 0 0;
  x2 = pos 0;
  y2 = pos 0;
  ms = pos 0;
  key = [];
  text = [];
  code = 0;
  meta = 0;
  paste = false;
  copy = false;
  ts = nonneg 0 0;
}

abbrev moved : Channel
moved = (dispatch_ws_input exact off_right screen).1

moves : dispatch_ws_input exact off_right screen ≡ (none, moved)
unfolding dispatch_ws_input touch_action or_one touch write text_eq
moves = refl

-- A finger that has left the screen on the right and above it.
dispatch_ws_input-Lands_example : Lands (pos 3) screen moved
dispatch_ws_input-Lands_example =
    dispatch_ws_input-Lands exact off_right screen moved refl (omega arith) (omega arith)
      (omega arith) (omega arith) moves

abbrev working : Adb
working = record { output = λ runs. some [] }

abbrev shoot : Text → ℕ → ℕ → Runs → Option Shot × Runs
shoot serial max_w quality runs =
    (some (record { picture = codes "new"; width = 2; height = 3 }), runs)

abbrev old_shots : Shots
old_shots =
    record {
      key = shot_key device.adb_addr 0 70;
      shot = some (record { picture = codes "old"; width = 2; height = 3 });
      taken = 5;
    }
    ∷ []

abbrev tap_request : InputRequest
tap_request = record {
  kind = codes "tap";
  x = pos 1;
  y = pos 2;
  x2 = pos 0;
  y2 = pos 0;
  ms = pos 0;
  key = [];
  text = [];
}

abbrev tapped : InputAnswer × Shots × Runs × Option Channel
tapped = handle_input (some working) exact (ok device) (some tap_request) old_shots [] none

taps : tapped.0 ≡ injected false
unfolding handle_input inject_via_adb tap text_eq
taps = refl

-- The old picture was taken at 5 and is asked for within the second.
handle_input-Fresh_example :
    IsShotNow shoot device.adb_addr 0 70 tapped.2
      (get shoot device.adb_addr 0 70 (10 ^ 9) 7 8 tapped.1 tapped.2)
handle_input-Fresh_example =
    handle_input-Fresh shoot working exact device tap_request old_shots [] none false 0 70 (10 ^ 9)
      7 8 taps
