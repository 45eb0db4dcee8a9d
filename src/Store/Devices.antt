-- ===== src/Store/Devices.antt =====
-- internal/store/store.go: the statements on the table of devices.
use droidpool.Prelude.{List, ◌∷◌, Option, map, if◌then◌else◌, any, find?, Text}
use droidpool.Exec.{
  Result, ok, err, Exec, pure, raise, or_raise, ◌>>=◌, ◌>>◌, not_found, bad_transition,
}
use droidpool.Pool.State.{DeviceState, can_transition}
use droidpool.Pool.Identity.{Identity}
use droidpool.Pool.Lease.{Device}
use droidpool.Store.Tables.{
  DeviceRow, scan_device, device_row, has_device, update_where, order_by, by_id,
}
use droidpool.Store.Sql.{Db, query, exec}

-- ON CONFLICT(id) DO UPDATE SET: the columns of the last four settings and `created_at` stay.
unfoldable pub overwrite : DeviceRow → DeviceRow → DeviceRow
overwrite new old = record old {
  node = new.node;
  container = new.container;
  adb_addr = new.adb_addr;
  state = new.state;
  last_health_at = new.last_health_at;
  health_fails = new.health_fails;
}

unfoldable pub upsert_row : DeviceRow → List DeviceRow → List DeviceRow
unfolding update_where overwrite
upsert_row new rows =
    if any (has_device new.id) rows
    then update_where (has_device new.id) (overwrite new) rows
    else new ∷ rows

unfoldable pub upsert_device : Device → Exec Db (Unit {0})
upsert_device d = exec (λ t. record t { devices = upsert_row (device_row d) t.devices })

unfoldable pub get_device : Text → Exec Db Device
unfolding scan_device
get_device id = do
  row ← query (λ t. find? (has_device id) t.devices)
  found ← or_raise row not_found
  pure (scan_device found)

unfoldable pub list_devices : Exec Db (List Device)
unfolding scan_device order_by
list_devices = do rows ← query (λ t. order_by by_id t.devices); pure (map scan_device rows)

-- `res.RowsAffected()` of an UPDATE, read before the update.
unfoldable pub update_device : Text → (DeviceRow → DeviceRow) → Exec Db (Unit {0})
unfolding update_where
update_device id f db =
    let found = any (has_device id) db.devices in
    (do
      exec (λ t. record t { devices = update_where (has_device id) f t.devices })
      if found then pure tt else raise not_found)
      db

unfoldable pub set_device_egress : Text → Text → Exec Db (Unit {0})
unfolding update_device
set_device_egress id proxy = update_device id (λ r. record r { egress_proxy = proxy })

unfoldable pub set_device_camera : Text → Text → Exec Db (Unit {0})
unfolding update_device
set_device_camera id rtsp = update_device id (λ r. record r { camera_rtsp = rtsp })

unfoldable pub set_device_identity : Text → Option Identity → Exec Db (Unit {0})
unfolding update_device
set_device_identity id ident = update_device id (λ r. record r { identity = ident })

unfoldable pub set_device_location : Text → Text → Exec Db (Unit {0})
unfolding update_device
set_device_location id location = update_device id (λ r. record r { mock_location = location })

abbrev pub with_state : DeviceState → DeviceRow → DeviceRow
with_state to r = record r { state = to }

-- pool.Transition: the target, or an error.
unfoldable pub transition : DeviceState → DeviceState → Result DeviceState
transition from to = if can_transition from to then ok to else err bad_transition

unfoldable pub set_device_state : Text → DeviceState → Exec Db (Unit {0})
unfolding get_device transition update_where
set_device_state id to = do
  d ← get_device id
  _ ← (λ db. (transition d.state to, db))
  exec (λ t. record t { devices = update_where (has_device id) (with_state to) t.devices })
