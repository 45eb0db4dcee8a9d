-- ===== src/Manager/Settings.antt =====
-- internal/pool/manager.go: the changes of a device's settings that operators make.
use droidpool.Prelude.{Bool, true, false, not, ◌||◌, Option, none, some, if◌then◌else◌, Text}
use droidpool.Exec.{Result, ok, err, Exec, pure, bad_identity, ◌>>=◌, ◌>>◌}
use droidpool.Pool.State.{DeviceState, ready, leased, resetting, state_eq}
use droidpool.Pool.Identity.{Identity, IdentityError, normalized, validate, same_identity}
use droidpool.Pool.Lease.{Device}
use droidpool.Store.Devices.{
  upsert_device, get_device, set_device_egress, set_device_camera, set_device_identity,
  set_device_location, set_device_state,
}
use droidpool.Manager.World.{
  World, Sys, Manager, sets_egress, sets_camera, sets_location, on_db, drive, time_now,
  effective_identity, effective_location,
}
use droidpool.Manager.Rebuild.{unless, returned, rebuild}

abbrev pub is_up : DeviceState → Bool
is_up s = state_eq s ready || state_eq s leased

abbrev valid_or : Identity → Option IdentityError → Result (Option Identity)
valid_or n none = ok (some n)
valid_or n (some e) = err (bad_identity e)

-- The identity to store: completed and validated, or none to go back to the node's.
unfoldable pub checked_identity : Option Identity → Result (Option Identity)
checked_identity none = ok none
checked_identity (some i) = valid_or (normalized i) (validate (normalized i))

abbrev after_rebuild : DeviceState → DeviceState
after_rebuild s = if state_eq s resetting then ready else s

module _ (w : World) (m : Manager) where
  unfoldable pub set_location : Text → Text → Exec Sys (Unit {0})
  set_location id location = do
    d ← on_db (get_device id)
    on_db (set_device_location id location)
    let changed = record d { mock_location = location }
    unless (not (is_up d.state)) (drive w (sets_location id (effective_location m changed)))

  -- The rebuild of a device that is up, under the identity it carries.
  unfoldable pub rebuild_as : Device → Option Identity → Exec Sys (Option Identity × Bool)
  rebuild_as d effective = do
    unless (not (state_eq d.state ready)) (on_db (set_device_state d.id resetting))
    rebuild w m d
    cur ← on_db (get_device d.id)
    t ← time_now w
    on_db (
        upsert_device
          (record cur { state = after_rebuild cur.state; last_healthy = t; health_fails = 0 }))
    pure (effective, true)

  -- The identity in force, and whether the device was rebuilt for it.
  unfoldable pub set_identity : Text → Option Identity → Exec Sys (Option Identity × Bool)
  set_identity id ident = do
    d ← on_db (get_device id)
    stored ← returned (checked_identity ident)
    let before = effective_identity m d
    on_db (set_device_identity id stored)
    let renamed = record d { identity = stored }
    let effective = effective_identity m renamed
    if same_identity before effective || not (is_up d.state)
        then pure (effective, false)
        else rebuild_as renamed effective

  unfoldable pub set_camera : Text → Text → Exec Sys (Unit {0})
  set_camera id rtsp = do
    d ← on_db (get_device id)
    drive w (sets_camera id rtsp)
    on_db (set_device_camera id rtsp)

  unfoldable pub set_egress : Text → Text → Exec Sys (Unit {0})
  set_egress id proxy = do
    d ← on_db (get_device id)
    drive w (sets_egress id proxy)
    on_db (set_device_egress id proxy)
