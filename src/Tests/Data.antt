-- ===== src/Tests/Data.antt =====
-- A small pool for the tests: two devices, one of them leased, and a node that does what it is told.
use droidpool.Prelude.{◌*◌, true, false, [], ◌∷◌, none, codes}
use droidpool.Prelude.Int.{pos}
use droidpool.Pool.State.{ready, leased}
use droidpool.Pool.Time.{Time, zero_time, at, second, minute}
use droidpool.Pool.Identity.{Identity}
use droidpool.Pool.Lease.{Lease, shared}
use droidpool.Store.Tables.{DeviceRow, LeaseRow}
use droidpool.Store.Sql.{Tables, healthy}
use droidpool.Manager.World.{World, Sys, Manager}
use droidpool.Reaper.{Reaper}
use droidpool.Health.{HealthChecker}
use droidpool.Api.Leases.{Server, ClaimRequest}

abbrev pub phone : Identity
phone = record {
  model = codes "Pixel 8";
  brand = codes "google";
  manufacturer = [];
  device = [];
  name = [];
  serial = [];
}

abbrev pub now : Time
now = at (1000 * second)

abbrev pub later : Time
later = at (2000 * second)

abbrev pub idle_row : DeviceRow
idle_row = record {
  id = codes "n-1";
  node = codes "n";
  container = codes "droidpool-n-1";
  adb_addr = codes "h:5001";
  state = ready;
  created_at = 5;
  last_health_at = 0;
  health_fails = 2;
  egress_proxy = codes "p";
  camera_rtsp = [];
  identity = none;
  mock_location = [];
}

abbrev pub held_row : DeviceRow
held_row = record idle_row { id = codes "n-2"; state = leased; health_fails = 0 }

abbrev pub old_lease : LeaseRow
old_lease = record {
  id = codes "a";
  device_id = codes "n-2";
  owner = codes "me";
  host = codes "mac";
  worktree = codes "w2";
  branch = [];
  head_sha = [];
  created_at = 900;
  expires_at = 950;
  human_takeover = 0;
  human_note = [];
  edge_mode = shared;
  released_at = 0;
  last_seen_at = 900;
}

abbrev pub pool : Tables
pool = record { devices = idle_row ∷ held_row ∷ []; leases = old_lease ∷ [] }

abbrev pub asked : Lease
asked = record {
  id = codes "b";
  device_id = [];
  owner = codes "me";
  host = codes "mac";
  worktree = codes "w1";
  branch = [];
  head_sha = [];
  created_at = now;
  expires_at = later;
  last_seen_at = zero_time;
  human_takeover = false;
  human_note = [];
  edge_mode = shared;
}

-- Every call succeeds, at the time `now`.
abbrev pub world : World
world = record { answers = λ calls. true; clock = λ calls. now }

abbrev pub manager : Manager
manager = record {
  node_name = codes "n";
  adb_host = codes "h";
  max_devices = pos 2;
  port_base = 5000;
  overlay_base = codes "/o";
  boot_limit = 0;
  default_identity = none;
  default_location = [];
}

abbrev pub start : Sys
start = record { db = healthy pool; calls = [] }

abbrev pub reaper : Reaper
reaper = record { resetter = none; idle_limit = 30 * minute; max_life = 0 }

abbrev pub checker : HealthChecker
checker = record { alive = λ addr. false; threshold_set = 3 }

abbrev pub server : Server
server = record {
  default_ttl = 10 * minute;
  max_ttl = 60 * minute;
  min_avail_mib = 0;
  health = none;
  resets = true;
}

abbrev pub request : ClaimRequest
request = record {
  owner = codes "me";
  host = codes "mac";
  worktree = codes "w1";
  branch = [];
  head_sha = [];
  ttl_min = 5;
}
