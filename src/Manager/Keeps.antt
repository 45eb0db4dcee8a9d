-- ===== src/Manager/Keeps.antt =====
-- Invariants of the tables under the actions of internal/pool/manager.go, one rule for each kind.
use droidpool.Prelude.{◌≡◌, refl, Bool, Text, is_empty, List, arith}
use droidpool.Exec.{Result, ok, err, Exec, pure}
use droidpool.Exec.Keeps.{Keeps, Keeps-pure, Keeps-if, Keeps-bind, Keeps-then, Keeps-ignore}
use droidpool.Pool.Lease.{Device}
use droidpool.Store.Sql.{Tables, Db, healthy, fails, later_faults}
use droidpool.Store.Keeps.{Holds, Keeps-get_device}
use droidpool.Store.Devices.{upsert_device, get_device}
use droidpool.Manager.World.{
  World, Sys, Manager, DriverCall, finishes_egress, sets_egress, sets_camera, sets_location,
  creates, removes, wipes, waits_boot, effective_identity, boot_timeout, on_db, drive, time_now,
  effective_location,
}
use droidpool.Manager.Rebuild.{
  unless, returned, mark_broken, or_broken, broken_if_failed, apply_device_settings, rebuild, reset,
}
use droidpool.Manager.Index.{port, index_of}
use droidpool.Pool.State.{ready}

-- A predicate of the database, of the whole state.
abbrev pub SysHolds : (Db → Type 0) → Sys → Type 0
SysHolds Q s = Q s.db

module _ (Q : Db → Type 0) where
  pub Keeps-on_db : {A : Type 0} (m : Exec Db A) → Keeps Q m → Keeps (SysHolds Q) (on_db m)
  Keeps-on_db m k = record { at = λ s p. k.at s.db p }

  pub Keeps-drive : (w : World) (c : DriverCall) → Keeps (SysHolds Q) (drive w c)
  Keeps-drive w c = record { at = λ s p. p }

  pub Keeps-time_now : (w : World) → Keeps (SysHolds Q) (time_now w)
  Keeps-time_now w = record { at = λ s p. p }

  pub Keeps-returned : {A : Type 0} (r : Result A) → Keeps (SysHolds Q) (returned r)
  Keeps-returned r = record { at = λ s p. p }

  pub Keeps-unless :
      (b : Bool) (m : Exec Sys (Unit {0})) → Keeps (SysHolds Q) m → Keeps (SysHolds Q) (unless b m)
  Keeps-unless b m k = Keeps-if b (pure tt) m (Keeps-pure tt) k

  -- The settings are applied without a write to the database.
  pub Keeps-apply_device_settings :
      (w : World) (m : Manager) (id : Text)
      → Keeps Q (get_device id)
      → Keeps (SysHolds Q) (apply_device_settings w m id)
  unfolding apply_device_settings
  Keeps-apply_device_settings w m id got = Keeps-then _ _ (Keeps-drive w (finishes_egress id)) (
      Keeps-bind _ _ (Keeps-on_db (get_device id) got) λ d.
        Keeps-then _ _
          (Keeps-unless (is_empty d.egress_proxy) _ (Keeps-drive w (sets_egress id d.egress_proxy)))
          (Keeps-then _ _
            (Keeps-unless (is_empty d.camera_rtsp) _ (Keeps-drive w (sets_camera id d.camera_rtsp)))
            (Keeps-unless (is_empty (effective_location m d)) _
              (Keeps-drive w (sets_location id (effective_location m d))))))

module _ (Q : Db → Type 0) (upsert_keeps : (d : Device) → Keeps Q (upsert_device d)) where
  broken-holds :
      (d : Device) (x : Result (Unit {0}) × Sys) → Q x.1.db → Q (broken_if_failed d x).1.db
  unfolding mark_broken
  broken-holds d (ok u, s) p = p
  broken-holds d (err e, s) p = (upsert_keeps _).at s.db p

  pub Keeps-or_broken :
      (d : Device) (m : Exec Sys (Unit {0}))
      → Keeps (SysHolds Q) m
      → Keeps (SysHolds Q) (or_broken d m)
  Keeps-or_broken d m k = record { at = λ s p. broken-holds d (m s) (k.at s p) }

pub tables-apply_device_settings :
    (w : World) (m : Manager) (id : Text) (s : Sys)
    → (apply_device_settings w m id s).1.tables ≡ s.tables
tables-apply_device_settings w m id s =
    (Keeps-apply_device_settings (Holds (λ t. t ≡ s.tables)) w m id (Keeps-get_device _ id)).at s
      refl

-- On a database whose statements do not fail, so far nothing has changed.
abbrev pub IsHealthy : Tables → Db → Type 0
IsHealthy t db = db ≡ healthy t

Keeps-get_device-IsHealthy : (t : Tables) (id : Text) → Keeps (IsHealthy t) (get_device id)
unfolding get_device fails later_faults
Keeps-get_device-IsHealthy t id = record { at = λ db e. ground arith }

pub db-apply_device_settings :
    (w : World) (m : Manager) (id : Text) (t : Tables) (calls : List DriverCall)
    → (apply_device_settings w m id (record { db = healthy t; calls = calls })).1.db ≡ healthy t
db-apply_device_settings w m id t calls =
    (Keeps-apply_device_settings (IsHealthy t) w m id (Keeps-get_device-IsHealthy t id)).at _ refl

-- A reset keeps whatever reading and upserting devices keeps.
module _ (Q : Db → Type 0) (get_keeps : (id : Text) → Keeps Q (get_device id))
    (upsert_keeps : (d : Device) → Keeps Q (upsert_device d)) (w : World) (m : Manager) where
  pub Keeps-rebuild : (d : Device) → Keeps (SysHolds Q) (rebuild w m d)
  unfolding rebuild
  Keeps-rebuild d = Keeps-bind _ _ (Keeps-returned Q (index_of m d.id)) λ i.
      Keeps-then _ _ (Keeps-ignore _ (Keeps-drive Q w (removes d.id))) (
        Keeps-then _ _
          (Keeps-or_broken Q upsert_keeps d _ (Keeps-drive Q w (wipes d.id m.overlay_base)))
          (Keeps-then _ _
            (Keeps-or_broken Q upsert_keeps d _
              (Keeps-drive Q w (creates d.id (port m i) m.overlay_base (effective_identity m d))))
            (Keeps-then _ _
              (Keeps-or_broken Q upsert_keeps d _
                (Keeps-drive Q w (waits_boot d.id (boot_timeout m))))
              (Keeps-ignore _ (Keeps-apply_device_settings Q w m d.id (get_keeps d.id))))))

  pub Keeps-reset : (id : Text) → Keeps (SysHolds Q) (reset w m id)
  unfolding reset
  Keeps-reset id = Keeps-bind _ _ (Keeps-on_db Q (get_device id) (get_keeps id)) λ d.
      Keeps-then _ _ (Keeps-rebuild d) (
        Keeps-bind _ _ (Keeps-time_now Q w) λ t.
          Keeps-on_db Q _
            (upsert_keeps (record d { state = ready; last_healthy = t; health_fails = 0 })))
