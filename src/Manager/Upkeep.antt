-- ===== src/Manager/Upkeep.antt =====
-- The leases and the constraints under `Reset`, `Ensure` and `ReconcileStore` of
-- internal/pool/manager.go.
use droidpool.Prelude.{ℕ, zero, suc, ◌+◌, ◌≡◌, refl, Bool, ◌||◌, List, [], ◌∷◌, arith, Text}
use droidpool.Prelude.Int.{at_most}
use droidpool.Exec.{Result, ok, err}
use droidpool.Exec.Keeps.{
  Keeps, Keeps-pure, Keeps-if, Keeps-bind, Keeps-then, Keeps-ignore, Keeps-attempt,
}
use droidpool.Pool.State.{ready, leased, resetting, creating, state_eq}
use droidpool.Pool.Lease.{Device}
use droidpool.Store.Tables.{LeaseRow}
use droidpool.Store.Sql.{Tables, Db}
use droidpool.Store.Keeps.{Holds, Keeps-get_device, Keeps-list_devices}
use droidpool.Store.Consistency.{IsConsistent}
use droidpool.Store.History.{upsert_device-Consistent}
use droidpool.Store.Devices.{upsert_device, get_device, list_devices}
use droidpool.Manager.World.{
  World, Sys, Manager, creates, waits_boot, effective_identity, boot_timeout,
}
use droidpool.Manager.Index.{device_id, port}
use droidpool.Manager.Rebuild.{
  mark_broken, reset, fresh_device, identity_of, is_there, reconcile_listed, create_one,
  ensure_from, ensure, reconcile_device, reconcile_all, reconcile_store,
}
use droidpool.Manager.Keeps.{
  SysHolds, Keeps-on_db, Keeps-drive, Keeps-time_now, Keeps-unless, Keeps-or_broken,
  Keeps-apply_device_settings, Keeps-reset,
}

module _ (Q : Db → Type 0) (get_keeps : (id : Text) → Keeps Q (get_device id))
    (list_keeps : Keeps Q list_devices) (upsert_keeps : (d : Device) → Keeps Q (upsert_device d))
    (w : World) (m : Manager) where
  Keeps-create_one : (i : ℕ) → Keeps (SysHolds Q) (create_one w m i)
  unfolding create_one
  Keeps-create_one i = Keeps-bind _ _ (Keeps-time_now Q w) λ t.
      let fresh = fresh_device m i t in
      Keeps-then _ _ (Keeps-on_db Q (upsert_device fresh) (upsert_keeps fresh)) (
        Keeps-bind _ _ (Keeps-attempt _ (Keeps-on_db Q (get_device fresh.id) (get_keeps fresh.id)))
          λ old.
            let d = record fresh { identity = identity_of w m old } in
            Keeps-then _ _
              (Keeps-or_broken Q upsert_keeps d _
                (Keeps-drive Q w (creates d.id (port m i) m.overlay_base (effective_identity m d))))
              (Keeps-then _ _
                (Keeps-or_broken Q upsert_keeps d _
                  (Keeps-drive Q w (waits_boot d.id (boot_timeout m))))
                (Keeps-then _ _
                  (Keeps-ignore _ (Keeps-apply_device_settings Q w m d.id (get_keeps d.id)))
                  (Keeps-bind _ _ (Keeps-time_now Q w) λ up.
                    Keeps-on_db Q _
                      (upsert_keeps (record d { state = ready; last_healthy = up }))))))

  Keeps-ensure_from : (n i : ℕ) → Keeps (SysHolds Q) (ensure_from w m n i)
  unfolding ensure_from
  Keeps-ensure_from zero i = Keeps-pure tt
  Keeps-ensure_from (suc n) i =
      Keeps-bind _ _ (Keeps-attempt _ (Keeps-on_db Q _ (get_keeps (device_id m i)))) λ found.
        Keeps-then _ _ (Keeps-unless Q (is_there w m found) _ (Keeps-ignore _ (Keeps-create_one i)))
          (Keeps-ensure_from n (i + 1))

  Keeps-reconcile_device :
      (running : Text → Bool) (d : Device) → Keeps (SysHolds Q) (reconcile_device w m running d)
  unfolding reconcile_device mark_broken
  Keeps-reconcile_device running d =
      Keeps-if (state_eq d.state ready || state_eq d.state leased) _ _
        (Keeps-unless Q (running d.container) _ (record { at = λ s p. (upsert_keeps _).at s.db p }))
        (Keeps-if (state_eq d.state resetting || state_eq d.state creating) _ _
          (Keeps-ignore _ (Keeps-reset Q get_keeps upsert_keeps w m d.id)) (Keeps-pure tt))

  Keeps-reconcile_all :
      (running : Text → Bool) (ds : List Device) → Keeps (SysHolds Q) (reconcile_all w m running ds)
  unfolding reconcile_all
  Keeps-reconcile_all running [] = Keeps-pure tt
  Keeps-reconcile_all running (d ∷ ds) =
      Keeps-then _ _ (Keeps-reconcile_device running d) (Keeps-reconcile_all running ds)

  Keeps-reconcile_listed :
      (running : Text → Bool) (listed : Result (List Device))
      → Keeps (SysHolds Q) (reconcile_listed w m running listed)
  Keeps-reconcile_listed running (ok ds) = Keeps-reconcile_all running ds
  Keeps-reconcile_listed running (err e) = Keeps-pure tt

  Keeps-reconcile_store : (running : Text → Bool) → Keeps (SysHolds Q) (reconcile_store w m running)
  unfolding reconcile_store
  Keeps-reconcile_store running =
      Keeps-bind _ _ (Keeps-attempt _ (Keeps-on_db Q list_devices list_keeps))
        λ listed. Keeps-reconcile_listed running listed

  -- The three, from one state.
  abbrev KeptByUpkeep : Text → (Text → Bool) → Sys → Type 0
  KeptByUpkeep id running s =
      Q (reset w m id s).1.db × Q (ensure w m s).1.db × Q (reconcile_store w m running s).1.db

  kept_by_upkeep :
      (id : Text) (running : Text → Bool) (s : Sys) → Q s.db → KeptByUpkeep id running s
  unfolding ensure
  kept_by_upkeep id running s q = (
    (Keeps-reset Q get_keeps upsert_keeps w m id).at s q,
    (Keeps-ensure_from (at_most m.max_devices) 1).at s q,
    (Keeps-reconcile_store running).at s q,
  )

abbrev pub LeasesAre : List LeaseRow → Tables → Type 0
LeasesAre rows t = t.leases ≡ rows

upsert_device-LeasesAre :
    (rows : List LeaseRow) (d : Device) → Keeps (Holds (LeasesAre rows)) (upsert_device d)
unfolding upsert_device
upsert_device-LeasesAre rows d = record { at = λ db q. ground arith }

-- Whatever the node answers and whichever statements fail, a reset, the creation of the missing
-- devices and the reconciliation leave every lease as it is, and the tables consistent if they
-- were so before.
pub upkeep-IsConsistent :
    (w : World) (m : Manager) (id : Text) (running : Text → Bool) (s : Sys)
    → IsConsistent s.tables
    → (((reset w m id s).1.leases ≡ s.leases) × IsConsistent (reset w m id s).1.tables)
      × (((ensure w m s).1.leases ≡ s.leases) × IsConsistent (ensure w m s).1.tables)
      × (((reconcile_store w m running s).1.leases ≡ s.leases)
          × IsConsistent (reconcile_store w m running s).1.tables)
upkeep-IsConsistent w m id running s c =
    let (lr, le, ls) =
      kept_by_upkeep (Holds (LeasesAre s.leases)) (Keeps-get_device _) (Keeps-list_devices _)
        (upsert_device-LeasesAre s.leases) w m id running s refl in
    let (cr, ce, cs) =
      kept_by_upkeep (Holds IsConsistent) (Keeps-get_device _) (Keeps-list_devices _)
        upsert_device-Consistent w m id running s c in
    ((lr, cr), (le, ce), (ls, cs))
