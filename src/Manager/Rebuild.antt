-- ===== src/Manager/Rebuild.antt =====
-- internal/pool/manager.go: wiping and rebuilding a device, and creating the missing ones.
use droidpool.Prelude.{
  ℕ, zero, suc, ◌+◌, Bool, false, not, ◌||◌, List, [], ◌∷◌, ◌++◌, Option, none, if◌then◌else◌,
  is_empty, Text, codes,
}
use droidpool.Prelude.Int.{at_most}
use droidpool.Exec.{Result, ok, err, Exec, pure, attempt, ignore, ◌>>=◌, ◌>>◌}
use droidpool.Pool.State.{creating, ready, leased, resetting, broken, state_eq}
use droidpool.Pool.Time.{Time, zero_time}
use droidpool.Pool.Identity.{Identity}
use droidpool.Pool.Lease.{Device}
use droidpool.Store.Devices.{upsert_device, get_device, list_devices}
use droidpool.Manager.World.{
  World, Sys, Manager, creates, removes, wipes, waits_boot, finishes_egress, sets_egress,
  sets_camera, sets_location, on_db, drive, time_now, effective_identity, effective_location,
  boot_timeout,
}
use droidpool.Manager.Index.{device_id, port, adb_addr, index_of}

abbrev pub unless : Bool → Exec Sys (Unit {0}) → Exec Sys (Unit {0})
unless c act = if c then pure tt else act

abbrev pub returned : {A : Type 0} → Result A → Exec Sys A
returned r s = (r, s)

-- d.State = StateBroken; _ = m.Store.UpsertDevice(d)
unfoldable pub mark_broken : Device → Sys → Sys
mark_broken d s = (ignore (on_db (upsert_device (record d { state = broken }))) s).1

abbrev pub broken_if_failed : Device → Result (Unit {0}) × Sys → Result (Unit {0}) × Sys
broken_if_failed d (ok u, s) = (ok u, s)
broken_if_failed d (err e, s) = (err e, mark_broken d s)

-- A step whose failure marks the device as broken.
abbrev pub or_broken : Device → Exec Sys (Unit {0}) → Exec Sys (Unit {0})
or_broken d act s = broken_if_failed d (act s)

abbrev pub fresh_device : Manager → ℕ → Time → Device
fresh_device m i t = record {
  id = device_id m i;
  node = m.node_name;
  container = codes "droidpool-" ++ device_id m i;
  adb_addr = adb_addr m i;
  state = creating;
  created_at = t;
  last_healthy = zero_time;
  health_fails = 0;
  egress_proxy = [];
  camera_rtsp = [];
  identity = none;
  mock_location = [];
}

module _ (w : World) (m : Manager) where
  unfoldable pub apply_device_settings : Text → Exec Sys (Unit {0})
  apply_device_settings id = do
    drive w (finishes_egress id)
    d ← on_db (get_device id)
    unless (is_empty d.egress_proxy) (drive w (sets_egress id d.egress_proxy))
    unless (is_empty d.camera_rtsp) (drive w (sets_camera id d.camera_rtsp))
    let location = effective_location m d
    unless (is_empty location) (drive w (sets_location id location))

  -- Settings that cannot be applied are logged, and the device is used without them.
  unfoldable pub rebuild : Device → Exec Sys (Unit {0})
  rebuild d = do
    i ← returned (index_of m d.id)
    ignore (drive w (removes d.id))
    or_broken d (drive w (wipes d.id m.overlay_base))
    or_broken d (drive w (creates d.id (port m i) m.overlay_base (effective_identity m d)))
    or_broken d (drive w (waits_boot d.id (boot_timeout m)))
    ignore (apply_device_settings d.id)

  unfoldable pub reset : Text → Exec Sys (Unit {0})
  reset id = do
    d ← on_db (get_device id)
    rebuild d
    t ← time_now w
    on_db (upsert_device (record d { state = ready; last_healthy = t; health_fails = 0 }))

  abbrev pub identity_of : Result Device → Option Identity
  identity_of (ok d) = d.identity
  identity_of (err e) = none

  unfoldable pub create_one : ℕ → Exec Sys (Unit {0})
  create_one i = do
    let id = device_id m i
    t ← time_now w
    let fresh = fresh_device m i t
    on_db (upsert_device fresh)
    old ← attempt (on_db (get_device id))
    let d = record fresh { identity = identity_of old }
    or_broken d (drive w (creates id (port m i) m.overlay_base (effective_identity m d)))
    or_broken d (drive w (waits_boot id (boot_timeout m)))
    ignore (apply_device_settings id)
    up ← time_now w
    on_db (upsert_device (record d { state = ready; last_healthy = up }))

  abbrev pub is_there : Result Device → Bool
  is_there (ok d) = not (state_eq d.state broken)
  is_there (err e) = false

  -- The devices `i` to `i + n - 1`. One that cannot be created does not stop the others.
  unfoldable pub ensure_from : ℕ → ℕ → Exec Sys (Unit {0})
  ensure_from zero i = pure tt
  ensure_from (suc n) i = do
    found ← attempt (on_db (get_device (device_id m i)))
    unless (is_there found) (ignore (create_one i))
    ensure_from n (i + 1)

  -- A loop up to a negative number does nothing.
  unfoldable pub ensure : Exec Sys (Unit {0})
  ensure = ensure_from (at_most m.max_devices) 1

  unfoldable pub reconcile_device : (Text → Bool) → Device → Exec Sys (Unit {0})
  reconcile_device running d =
      if state_eq d.state ready || state_eq d.state leased
      then unless (running d.container) (λ s. (ok tt, mark_broken d s))
      else if state_eq d.state resetting || state_eq d.state creating
      then ignore (reset d.id)
      else pure tt

  unfoldable pub reconcile_all : (Text → Bool) → List Device → Exec Sys (Unit {0})
  reconcile_all running [] = pure tt
  reconcile_all running (d ∷ ds) = do reconcile_device running d; reconcile_all running ds

  abbrev pub reconcile_listed : (Text → Bool) → Result (List Device) → Exec Sys (Unit {0})
  reconcile_listed running (ok ds) = reconcile_all running ds
  reconcile_listed running (err e) = pure tt

  -- `running` tells the containers that are up on the node.
  unfoldable pub reconcile_store : (Text → Bool) → Exec Sys (Unit {0})
  reconcile_store running = do
    listed ← attempt (on_db list_devices)
    reconcile_listed running listed
