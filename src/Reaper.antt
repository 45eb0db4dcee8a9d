-- ===== src/Reaper.antt =====
-- internal/pool/reaper.go: one round of the watchdog. The resetter is any action; `Manager.Reset` is
-- the one that the daemon gives it. A notice is what `OnReap` is called with, and the number of the
-- round is the number of its notices.
pub mod Round
pub mod Resetter
use droidpool.Prelude.{ℕ, ◌≡◌, Bool, List, [], ◌∷◌, Option, none, some, Text, length}
use droidpool.Exec.{Error, Result, ok, err, Exec, pure, attempt, ignore, ◌>>=◌, ◌>>◌}
use droidpool.Pool.Time.{Time}
use droidpool.Pool.Lease.{Lease, ReapReason, should_reap}
use droidpool.Store.Leases.{release, active_leases}
use droidpool.Manager.World.{World, Sys, on_db, time_now}

pub record Notice : Type 0 where
  pub lease_id : Text
  pub device_id : Text
  pub reason : ReapReason

pub record Reaper : Type 0 where
  pub resetter : Option (Text → Exec Sys (Unit {0}))
  pub idle_limit : ℕ
  pub max_life : ℕ

abbrev pub reset_with : Option (Text → Exec Sys (Unit {0})) → Text → Exec Sys (Unit {0})
reset_with none dev = pure tt
reset_with (some act) dev = ignore (act dev)

abbrev pub reset_released : Reaper → Text → ReapReason → Result Text → Exec Sys (Option Notice)
reset_released r id reason (err e) = pure none
reset_released r id reason (ok dev) = do
  reset_with r.resetter dev
  pure (some (record { lease_id = id; device_id = dev; reason = reason }))

abbrev pub reap_for : Reaper → Time → Lease → Option ReapReason → Exec Sys (Option Notice)
reap_for r now l none = pure none
reap_for r now l (some reason) = do
  released ← attempt (on_db (release l.id now))
  reset_released r l.id reason released

-- One turn of the loop.
unfoldable pub reap_one : Reaper → Time → Lease → Exec Sys (Option Notice)
reap_one r now l = reap_for r now l (should_reap l now r.idle_limit r.max_life)

abbrev pub noted : Option Notice → List Notice → List Notice
noted none ns = ns
noted (some n) ns = n ∷ ns

unfoldable pub reap_each : Reaper → Time → List Lease → Exec Sys (List Notice)
reap_each r now [] = pure []
reap_each r now (l ∷ ls) = do n ← reap_one r now l; ns ← reap_each r now ls; pure (noted n ns)

unfoldable pub reap_once : World → Reaper → Exec Sys (List Notice)
reap_once w r = do active ← on_db active_leases; now ← time_now w; reap_each r now active
