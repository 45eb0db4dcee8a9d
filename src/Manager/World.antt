-- ===== src/Manager/World.antt =====
-- What internal/pool/manager.go works on: the store, the node driver, the clock and its settings.
use droidpool.Prelude.{
  ℕ, ◌*◌, Bool, List, ◌∷◌, Option, none, some, if◌then◌else◌, ltb, is_empty, Text,
}
use droidpool.Prelude.Int.{ℤ}
use droidpool.Exec.{Result, ok, err, Exec, driver_failed}
use droidpool.Pool.Time.{Time, second}
use droidpool.Pool.Identity.{Identity}
use droidpool.Pool.Lease.{Device}
use droidpool.Store.Sql.{Db}

-- The calls of the interface NodeDriver.
pub data DriverCall : Type 0 where
  creates : Text → ℕ → Text → Option Identity → DriverCall
  removes finishes_egress : Text → DriverCall
  wipes : Text → Text → DriverCall
  waits_boot : Text → ℕ → DriverCall
  sets_egress sets_camera sets_location : Text → Text → DriverCall

-- The node and the clock. `answers calls` says whether the newest of the calls succeeds, given the
-- ones before it, and `clock calls` is the time after these calls.
pub record World : Type 0 where
  pub answers : List DriverCall → Bool
  pub clock : List DriverCall → Time

pub record Sys : Type 0 where
  pub db : Db
  pub open db use *
  pub calls : List DriverCall

pub record Manager : Type 0 where
  pub node_name : Text
  pub adb_host : Text
  pub max_devices : ℤ
  pub port_base : ℕ
  pub overlay_base : Text
  pub boot_limit : ℕ
  pub default_identity : Option Identity
  pub default_location : Text

abbrev with_db : {A : Type 0} → Sys → Result A × Db → Result A × Sys
with_db s (r, db) = (r, record s { db = db })

abbrev pub on_db : {A : Type 0} → Exec Db A → Exec Sys A
on_db m s = with_db s (m s.db)

abbrev pub drive : World → DriverCall → Exec Sys (Unit {0})
drive w c s =
    (if w.answers (c ∷ s.calls) then ok tt else err driver_failed, record s { calls = c ∷ s.calls })

abbrev pub time_now : World → Exec Sys Time
time_now w s = (ok (w.clock s.calls), s)

abbrev pub or_default : Option Identity → Option Identity → Option Identity
or_default none d = d
or_default (some i) d = some i

-- A device's own identity, or else the node's.
unfoldable pub effective_identity : Manager → Device → Option Identity
effective_identity m d = or_default d.identity m.default_identity

unfoldable pub effective_location : Manager → Device → Text
effective_location m d = if is_empty d.mock_location then m.default_location else d.mock_location

-- 90 s if no limit is set.
unfoldable pub boot_timeout : Manager → ℕ
boot_timeout m = if ltb 0 m.boot_limit then m.boot_limit else 90 * second
