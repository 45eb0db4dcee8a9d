-- ===== src/Manager/Ensured.antt =====
-- When `Ensure` of internal/pool/manager.go has nothing to do.
use droidpool.Prelude.{ℕ, zero, suc, ◌+◌, ◌≡◌, refl, false, List, some, arith, find?}
use droidpool.Prelude.Int.{at_most}
use droidpool.Exec.{ok}
use droidpool.Pool.State.{broken, state_eq}
use droidpool.Store.Tables.{DeviceRow, has_device, scan_device}
use droidpool.Store.Sql.{Tables, healthy, fails, later_faults}
use droidpool.Store.Devices.{get_device}
use droidpool.Manager.World.{World, Manager, DriverCall}
use droidpool.Manager.Index.{device_id}
use droidpool.Manager.Rebuild.{ensure, ensure_from}

-- The devices `i` to `i + n - 1` are in the table, and none of them is broken.
abbrev pub AreUp : Manager → ℕ → ℕ → Tables → Type 0
AreUp m zero i t = Unit
AreUp m (suc n) i t =
    ((row : DeviceRow) × (find? (has_device (device_id m i)) t.devices ≡ some row)
      × (state_eq row.state broken ≡ false))
    × AreUp m n (i + 1) t

module _ (w : World) (m : Manager) where
  ensure_from-AreUp :
      (n i : ℕ) (t : Tables) (calls : List DriverCall)
      → AreUp m n i t
      → ensure_from w m n i (record { db = healthy t; calls = calls })
        ≡ (ok tt, record { db = healthy t; calls = calls })
  unfolding ensure_from get_device scan_device fails later_faults
  ensure_from-AreUp zero i t calls up = refl
  ensure_from-AreUp (suc n) i t calls ((row, there, well), up) =
      ground (arith, there, well, ensure_from-AreUp n (i + 1) t calls up)

  -- On a healthy database with all devices 1 to max_devices in the table and none of them broken,
  -- Ensure succeeds, makes no driver call and changes no row.
  pub ensure-AreUp :
      (t : Tables) (calls : List DriverCall)
      → AreUp m (at_most m.max_devices) 1 t
      → ensure w m (record { db = healthy t; calls = calls })
        ≡ (ok tt, record { db = healthy t; calls = calls })
  unfolding ensure
  ensure-AreUp t calls up = ensure_from-AreUp (at_most m.max_devices) 1 t calls up
