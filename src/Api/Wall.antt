-- ===== src/Api/Wall.antt =====
-- internal/api/wall.go: the screenshots that are kept for the walls being watched, what a wall is
-- told of the devices, and the streams of pictures. Decoding and scaling a picture is a parameter,
-- `shoot`, and so are the clock and the checksums of pictures.
use droidpool.Prelude.{
  ℕ, ◌+◌, ◌*◌, ◌^◌, Bool, true, false, ◌&&◌, List, [], ◌∷◌, ◌++◌, Option, none, some, if◌then◌else◌,
  ltb, ◌==◌, is_empty, is_some, Text, text_eq, map,
}
use droidpool.Prelude.Decimal.{decimal}
use droidpool.Prelude.Int.{pos, Atoi, atoi}
use droidpool.Exec.{Result, ok, err, Exec, pure, ◌>>=◌}
use droidpool.Manager.Index.{strip_prefix}
use droidpool.Pool.Time.{Time}
use droidpool.Pool.State.{DeviceState}
use droidpool.Pool.Identity.{Identity}
use droidpool.Pool.Lease.{Device, Lease}
use droidpool.Store.Sql.{Db}
use droidpool.Store.Devices.{list_devices}
use droidpool.Store.Leases.{list_leases}
use droidpool.Adb.{Runs}
use droidpool.Api.Urls.{mask_url_credentials}
use droidpool.Api.Leases.{is_under_pressure}

-- A picture with the size of the screen it shows.
pub record Shot : Type 0 where
  pub picture : Text
  pub width : ℕ
  pub height : ℕ

-- `none` is data that is nil.
pub record ShotEntry : Type 0 where
  pub key : Text
  pub shot : Option Shot
  pub taken : ℕ

abbrev pub Shots : Type 0
Shots = List ShotEntry

-- fmt.Sprintf("%s|%d|%d", serial, maxW, quality)
unfoldable pub shot_key : Text → ℕ → ℕ → Text
shot_key serial max_w quality = serial ++ (b'|' ∷ (decimal max_w ++ (b'|' ∷ decimal quality)))

abbrev new_entry : Text → ShotEntry
new_entry key = record { key = key; shot = none; taken = 0 }

-- The entry of a key, which is a new one if there is none yet.
unfoldable pub entry : Text → Shots → ShotEntry
unfolding text_eq
entry key [] = new_entry key
entry key (e ∷ es) = let rest = entry key es in if text_eq e.key key then e else rest

-- The entry of the key is replaced, or else added.
unfoldable pub put_entry : ShotEntry → Shots → Shots
unfolding text_eq
put_entry n [] = n ∷ []
put_entry n (e ∷ es) = let rest = put_entry n es in if text_eq e.key n.key then n ∷ es else e ∷ rest

-- The picture of an entry that was taken less than `ttl` before now.
unfoldable pub recent : ℕ → ℕ → ShotEntry → Option Shot
recent now ttl e = if ltb now (e.taken + ttl) then e.shot else none

unfoldable pub invalidate : Text → Shots → Shots
unfolding strip_prefix
invalidate serial [] = []
invalidate serial (e ∷ es) =
    let rest = invalidate serial es in
    if is_some (strip_prefix serial e.key) then record e { shot = none } ∷ rest else e ∷ rest

abbrev value_or : ℕ → Atoi → ℕ
value_or def (pos v, true) = v
value_or def _ = def

unfoldable pub atoi_default : Text → ℕ → ℕ
unfolding atoi
atoi_default s def = if is_empty s then def else value_or def (atoi s)

module _ (shoot : Text → ℕ → ℕ → Runs → Option Shot × Runs) where
  abbrev pub keep_shot : ShotEntry → ℕ → Shots → Option Shot × Runs → Option Shot × Shots × Runs
  keep_shot e later shots (none, runs) = (none, put_entry e shots, runs)
  keep_shot e later shots (some s, runs) =
      (some s, put_entry (record e { shot = some s; taken = later }) shots, runs)

  abbrev pub cached_or :
      Text → ℕ → ℕ → ℕ → ShotEntry → Shots → Runs → Option Shot → Option Shot × Shots × Runs
  cached_or serial max_w quality later e shots runs (some s) = (some s, put_entry e shots, runs)
  cached_or serial max_w quality later e shots runs none =
      keep_shot e later shots (shoot serial max_w quality runs)

  -- The clock is read before a picture is taken, as `now`, and after it, as `later`.
  unfoldable pub get : Text → ℕ → ℕ → ℕ → ℕ → ℕ → Shots → Runs → Option Shot × Shots × Runs
  unfolding shot_key entry recent put_entry
  get serial max_w quality ttl now later shots runs =
      let e = entry (shot_key serial max_w quality) shots in
      cached_or serial max_w quality later e shots runs (recent now ttl e)

  abbrev screenshot_answer : Option Shot × Shots × Runs → (ℕ × Option Shot) × Shots × Runs
  screenshot_answer (none, shots, runs) = ((503, none), shots, runs)
  screenshot_answer (some s, shots, runs) = ((200, some s), shots, runs)

  -- `w` and `q` are the parameters of the request, and empty where it has none.
  unfoldable pub handle_screenshot :
      Bool → Result Device → Text → Text → ℕ → ℕ → Shots → Runs → (ℕ × Option Shot) × Shots × Runs
  unfolding get atoi_default
  handle_screenshot false found w q now later shots runs = ((503, none), shots, runs)
  handle_screenshot true (err e) w q now later shots runs = ((404, none), shots, runs)
  handle_screenshot true (ok d) w q now later shots runs =
      let max_w = atoi_default w 480 in
      let ttl = if max_w == 0 then 300 * 10 ^ 6 else 10 ^ 9 in
      screenshot_answer (get d.adb_addr max_w (atoi_default q 70) ttl now later shots runs)

-- `expires` is none where no lease is active.
pub record WallDevice : Type 0 where
  pub id : Text
  pub adb_addr : Text
  pub state : DeviceState
  pub owner : Text
  pub worktree : Text
  pub branch : Text
  pub head_sha : Text
  pub expires : Option Time
  pub human : Bool
  pub note : Text
  pub lease_id : Text
  pub egress : Text
  pub camera : Text
  pub identity : Option Identity
  pub mock_location : Text

-- The last lease of the list for the device.
unfoldable pub lease_on : Text → List Lease → Option Lease
unfolding text_eq
lease_on id [] = none
lease_on id (l ∷ ls) =
    let rest = lease_on id ls in
    if is_some rest then rest else if text_eq l.device_id id then some l else none

abbrev idle : Device → WallDevice
idle d = record {
  id = d.id;
  adb_addr = d.adb_addr;
  state = d.state;
  owner = [];
  worktree = [];
  branch = [];
  head_sha = [];
  expires = none;
  human = false;
  note = [];
  lease_id = [];
  egress = d.egress_proxy;
  camera = mask_url_credentials d.camera_rtsp;
  identity = d.identity;
  mock_location = d.mock_location;
}

unfoldable pub wall_device : Device → Option Lease → WallDevice
unfolding mask_url_credentials
wall_device d none = idle d
wall_device d (some l) = record (idle d) {
  owner = l.owner;
  worktree = l.worktree;
  branch = l.branch;
  head_sha = l.head_sha;
  expires = some l.expires_at;
  human = l.human_takeover;
  note = l.human_note;
  lease_id = l.id;
}

pub record Snapshot : Type 0 where
  pub devices : List WallDevice
  pub now : Time
  pub node : Option ℕ
  pub under_pressure : Option Bool

abbrev is_pressed : Option ℕ → ℕ → Option Bool
is_pressed none min_avail = none
is_pressed (some mem) min_avail = some (is_under_pressure mem min_avail)

-- `health` is the available memory, if there is a health source and it answers.
unfoldable pub wall_snapshot : Time → Option ℕ → ℕ → Exec Db Snapshot
unfolding lease_on wall_device list_devices list_leases is_under_pressure
wall_snapshot now health min_avail = do
  devices ← list_devices
  leases ← list_leases
  pure (record {
    devices = map (λ d. wall_device d (lease_on d.id leases)) devices;
    now = now;
    node = health;
    under_pressure = is_pressed health min_avail;
  })

abbrev pub max_streams : ℕ
max_streams = 4

-- Whether another stream is let in, and how many there are then.
unfoldable pub enter_stream : ℕ → Bool × ℕ
enter_stream open_now =
    if ltb max_streams (open_now + 1) then (false, open_now) else (true, open_now + 1)

abbrev idle_keepalive : ℕ
idle_keepalive = 2 * 10 ^ 9

pub record StreamState : Type 0 where
  pub last_sum : ℕ
  pub last_sent : ℕ

-- Whether a picture with this checksum is sent.
unfoldable pub stream_turn : ℕ → ℕ → StreamState → Bool × StreamState
stream_turn sum now st =
    if sum == st.last_sum && ltb now (st.last_sent + idle_keepalive)
    then (false, st)
    else (true, record { last_sum = sum; last_sent = now })
