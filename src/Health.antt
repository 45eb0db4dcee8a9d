-- ===== src/Health.antt =====
-- internal/pool/health.go: one round of the health checker. The prober is a function of a device's
-- address for the length of a round. The rebuilds that a round starts run after it, in the
-- background; they are the ones of the devices that it returns.
pub mod Verdicts
use droidpool.Prelude.{
  ℕ, zero, suc, ◌+◌, Bool, true, false, not, ◌&&◌, ◌||◌, List, [], ◌∷◌, Option, none, some, Text,
  ltb, ◌==◌, if◌then◌else◌,
}
use droidpool.Exec.{Error, Result, ok, err, Exec, pure, attempt, ignore, ◌>>=◌, ◌>>◌}
use droidpool.Pool.State.{DeviceState, ready, leased, broken, state_eq}
use droidpool.Pool.Time.{Time, is_zero}
use droidpool.Pool.Lease.{Device, health_fail_threshold}
use droidpool.Store.Sql.{Db}
use droidpool.Store.Devices.{upsert_device, list_devices}

pub record HealthChecker : Type 0 where
  pub alive : Text → Bool
  pub threshold_set : ℕ

unfoldable pub threshold : HealthChecker → ℕ
threshold h = if ltb 0 h.threshold_set then h.threshold_set else health_fail_threshold

abbrev pub is_probed : Device → Bool
is_probed d = state_eq d.state ready || state_eq d.state leased

-- A device that answers.
unfoldable pub answered : Time → Device → Device
answered now d =
    if not (d.health_fails == 0) || is_zero d.last_healthy
    then record d { health_fails = 0; last_healthy = now }
    else record d { last_healthy = now }

abbrev pub one_more : Device → Device
one_more d = record d { health_fails = d.health_fails + 1 }

-- A device that does not: one more failure, and `broken` at the threshold.
unfoldable pub unanswered : ℕ → Device → Device
unanswered limit d =
    if ltb (d.health_fails + 1) limit then one_more d else record (one_more d) { state = broken }

abbrev pub reported : Text → Result (Unit {0}) → Option Text
reported id (ok u) = some id
reported id (err e) = none

-- One turn of the loop: the id of the device, if it was marked as broken.
unfoldable pub check_one : HealthChecker → Time → Device → Exec Db (Option Text)
check_one h now d =
    if not (is_probed d)
    then pure none
    else if h.alive d.adb_addr
    then (do ignore (upsert_device (answered now d)); pure none)
    else if ltb (d.health_fails + 1) (threshold h)
    then (do ignore (upsert_device (unanswered (threshold h) d)); pure none)
    else (do
      marked ← attempt (upsert_device (unanswered (threshold h) d))
      pure (reported d.id marked))

abbrev pub collected : Option Text → List Text → List Text
collected none ids = ids
collected (some id) ids = id ∷ ids

unfoldable pub check_each : HealthChecker → Time → List Device → Exec Db (List Text)
check_each h now [] = pure []
check_each h now (d ∷ ds) = do
  one ← check_one h now d
  ids ← check_each h now ds
  pure (collected one ids)

abbrev pub check_listed : HealthChecker → Time → Result (List Device) → Exec Db (List Text)
check_listed h now (err e) = pure []
check_listed h now (ok ds) = check_each h now ds

unfoldable pub check_once : HealthChecker → Time → Exec Db (List Text)
check_once h now = do listed ← attempt list_devices; check_listed h now listed
