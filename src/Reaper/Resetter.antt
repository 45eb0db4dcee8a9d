-- ===== src/Reaper/Resetter.antt =====
-- `Manager.Reset` of internal/pool/manager.go as the resetter of internal/pool/reaper.go.
use droidpool.Prelude.{◌≡◌, List, [], some, arith, Text}
use droidpool.Exec.Keeps.{Keeps, Keeps-ignore}
use droidpool.Pool.Lease.{Device}
use droidpool.Store.Tables.{LeaseRow}
use droidpool.Store.Sql.{Db, fails, later_faults}
use droidpool.Store.Devices.{get_device, upsert_device}
use droidpool.Manager.World.{World, Manager}
use droidpool.Manager.Rebuild.{reset}
use droidpool.Manager.Keeps.{Keeps-reset}
use droidpool.Reaper.{Reaper}
use droidpool.Reaper.Round.{ResetsQuietly}

abbrev IsQuietDb : List LeaseRow → Db → Type 0
IsQuietDb rows db = (db.leases ≡ rows) × (db.faults ≡ [])

get_device-IsQuiet : (rows : List LeaseRow) (id : Text) → Keeps (IsQuietDb rows) (get_device id)
unfolding get_device fails later_faults
get_device-IsQuiet rows id = record { at = λ db q. ground arith }

upsert_device-IsQuiet :
    (rows : List LeaseRow) (d : Device) → Keeps (IsQuietDb rows) (upsert_device d)
unfolding upsert_device fails later_faults
upsert_device-IsQuiet rows d = record { at = λ db q. ground arith }

abbrev pub with_manager : World → Manager → Reaper → Reaper
with_manager w m r = record r { resetter = some (reset w m) }

-- The reaper with the manager's reset has a resetter that leaves the leases alone, whatever the
-- node answers.
pub reset-ResetsQuietly :
    (w : World) (m : Manager) (r : Reaper) → ResetsQuietly (with_manager w m r)
reset-ResetsQuietly w m r dev rows =
    Keeps-ignore _
      (Keeps-reset (IsQuietDb rows) (get_device-IsQuiet rows) (upsert_device-IsQuiet rows) w m dev)
