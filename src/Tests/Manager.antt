-- ===== src/Tests/Manager.antt =====
-- The manager, the reaper and the health checker on the pool of the tests.
use droidpool.Prelude.{
  ℕ, ◌+◌, ◌≡◌, refl, ◌⊎◌, true, false, ◌&&◌, ◌||◌, List, [], ◌∷◌, Option, none, some, codes,
  text_eq, find?, All, ltb, if◌then◌else◌, arith,
}
use droidpool.Prelude.Decimal.{scan, is_digit}
use droidpool.Exec.{ok, err, not_found, driver_failed, bad_device_id}
use droidpool.Pool.State.{ready, broken, can_transition}
use droidpool.Pool.Time.{unix, from_unix}
use droidpool.Pool.Identity.{Identity, normalized, slug, validate, same_identity}
use droidpool.Pool.Lease.{Device, Lease, should_reap, has_expired}
use droidpool.Store.Tables.{DeviceRow, update_where, scan_device, scan_lease, has_device, has_lease}
use droidpool.Store.Sql.{healthy, fails, later_faults}
use droidpool.Store.Devices.{
  upsert_device, get_device, upsert_row, overwrite, set_device_identity, set_device_state,
  update_device,
}
use droidpool.Manager.World.{World, Sys, effective_identity, effective_location}
use droidpool.Manager.Index.{index_of, strip_prefix, skip_spaces, read_digits, read_positive}
use droidpool.Manager.Rebuild.{rebuild, reset, mark_broken, apply_device_settings}
use droidpool.Manager.Settings.{set_identity, checked_identity, rebuild_as}
use droidpool.Manager.Clean.{WasRebuilt}
use droidpool.Manager.Reset.{IsInState, reset-cleans, reset-fails}
use droidpool.Manager.Renamed.{IsRenamed, set_identity-rebuilds}
use droidpool.Reaper.{Reaper, Notice, reap_each}
use droidpool.Reaper.Round.{is_due, reap_each-clears}
use droidpool.Reaper.Resetter.{with_manager, reset-ResetsQuietly}
use droidpool.Health.{threshold, is_probed, check_one}
use droidpool.Health.Verdicts.{check_one-reports}
use droidpool.Tests.Data.{
  now, idle_row, old_lease, pool, world, manager, start, phone, reaper, checker,
}

abbrev after_reset : Sys
after_reset = (reset world manager (codes "n-1") start).1

resets : reset world manager (codes "n-1") start ≡ (ok tt, after_reset)
unfolding reset rebuild mark_broken apply_device_settings index_of strip_prefix skip_spaces
    read_digits read_positive scan is_digit get_device upsert_device upsert_row scan_device text_eq
    fails later_faults effective_location
resets = refl

reset-cleans_example :
    ((d : Device) × (i : ℕ) × (d.id ≡ codes "n-1")
      × (index_of manager (codes "n-1") ≡ ok i)
      × WasRebuilt world manager d i start.calls)
    × IsInState after_reset.devices (codes "n-1") ready 0
reset-cleans_example = reset-cleans world manager (codes "n-1") start after_reset resets

-- A node on which nothing succeeds.
abbrev down : World
down = record { answers = λ calls. false; clock = λ calls. now }

abbrev after_failure : Sys
after_failure = (reset down manager (codes "n-1") start).1

fails_to_reset : reset down manager (codes "n-1") start ≡ (err driver_failed, after_failure)
unfolding reset rebuild mark_broken apply_device_settings index_of strip_prefix skip_spaces
    read_digits read_positive scan is_digit get_device upsert_device upsert_row scan_device text_eq
    fails later_faults effective_location
fails_to_reset = refl

reset-fails_example :
    (((driver_failed ≡ not_found)
        × (find? (has_device (codes "n-1")) pool.devices ≡ none)
        × (after_failure.tables ≡ pool))
      ⊎ ((index_of manager (codes "n-1") ≡ err bad_device_id) × (after_failure.tables ≡ pool)))
    ⊎ ((driver_failed ≡ driver_failed)
        × ((n : ℕ) × IsInState after_failure.devices (codes "n-1") broken n))
reset-fails_example =
    reset-fails down manager (codes "n-1") pool [] after_failure driver_failed fails_to_reset

abbrev as_phone : Option Identity
as_phone = some (normalized phone)

abbrev after_rename : Sys
after_rename = (set_identity world manager (codes "n-1") (some phone) start).1

renames :
    set_identity world manager (codes "n-1") (some phone) start
    ≡ (ok (as_phone, true), after_rename)
unfolding set_identity checked_identity rebuild_as rebuild mark_broken apply_device_settings
    index_of strip_prefix skip_spaces read_digits read_positive scan is_digit get_device
    upsert_device upsert_row overwrite scan_device text_eq fails later_faults effective_location
    effective_identity validate same_identity set_device_identity set_device_state update_device
    update_where normalized slug can_transition
renames = refl

set_identity-rebuilds_example :
    (row : DeviceRow) × (find? (has_device (codes "n-1")) start.devices ≡ some row)
    × IsRenamed world manager
        (codes "n-1")
        (some phone)
        as_phone
        true
        start
        after_rename
        row
        (scan_device row)
set_identity-rebuilds_example =
    set_identity-rebuilds world manager (codes "n-1") (some phone) as_phone true start after_rename
      renames

abbrev managed : Reaper
managed = with_manager world manager reaper

abbrev overdue : Lease
overdue = scan_lease old_lease

spared : All (λ l. (is_due managed now l && text_eq l.id (codes "b")) ≡ false) (overdue ∷ [])
unfolding should_reap has_expired scan_lease text_eq from_unix
spared = (refl, tt)

reap_each-clears_example :
    ((ns : List Notice) × ((reap_each managed now (overdue ∷ []) start).0 ≡ ok ns))
    × All
        (λ l.
          (is_due managed now l ≡ false)
          ⊎ (find? (has_lease l.id) (reap_each managed now (overdue ∷ []) start).1.leases ≡ none))
        (overdue ∷ [])
    × (find? (has_lease (codes "b")) (reap_each managed now (overdue ∷ []) start).1.leases
        ≡ find? (has_lease (codes "b")) start.leases)
reap_each-clears_example =
    reap_each-clears managed now (codes "b") (overdue ∷ []) start (unfold unix in omega arith)
      (reset-ResetsQuietly world manager reaper) refl spared

abbrev idle : Device
idle = scan_device idle_row

is_up : is_probed idle ≡ true
unfolding scan_device
is_up = refl

check_one-reports_example :
    ((check_one checker now idle (healthy pool)).0
      ≡ ok (
          if checker.alive idle.adb_addr || ltb (idle.health_fails + 1) (threshold checker)
          then none
          else some idle.id))
    × ((n : ℕ) × IsInState
          (check_one checker now idle (healthy pool)).1.devices
          idle.id
          (if checker.alive idle.adb_addr || ltb (idle.health_fails + 1) (threshold checker)
            then idle.state
            else broken)
          n)
check_one-reports_example = check_one-reports checker now idle pool is_up
