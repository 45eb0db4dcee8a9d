-- ===== src/Daemon/Start.antt =====
-- cmd/droidpoold/main.go: what the daemon does to its node, its store and adb when it starts, and the
-- settings of the parts that it starts then. Its loops and servers run on their own: here the start
-- is alone.
use droidpool.Prelude.{ℕ, Bool, true, List, [], ◌∷◌, ◌++◌, Option, some, Text, codes}
use droidpool.Prelude.Int.{at_most}
use droidpool.Exec.{Exec, Result, ok, err}
use droidpool.Pool.Location.{Floats}
use droidpool.Pool.Lease.{Device}
use droidpool.Store.Sql.{Db}
use droidpool.Store.Devices.{list_devices}
use droidpool.Manager.World.{World, Sys, Manager, on_db}
use droidpool.Manager.Index.{and_then}
use droidpool.Manager.Rebuild.{ensure, reconcile_store}
use droidpool.Node.Host.{Host, Log}
use droidpool.Node.Containers.{running_set}
use droidpool.Node.Props.{TarEntry}
use droidpool.Node.Golden.{make_golden}
use droidpool.Node.Driver.{driven}
use droidpool.Adb.{Adb, Runs, connect}
use droidpool.Config.{NodeConfig, Config}
use droidpool.Api.Leases.{Server}
use droidpool.Api.Ui.{UiConfig}
use droidpool.Daemon.{node_of, manager_of, golden_port, reconcile_node}

-- The host as it goes on after these commands.
abbrev host_after : Host → Log → Host
host_after h past = record {
  output = λ log. h.output (log ++ past);
  wakes = λ log. h.wakes (log ++ past);
  clock = λ log. h.clock (log ++ past);
}

-- The commands before the manager's, the manager's calls with the store, and adb's runs.
pub record Booted : Type 0 where
  pub prepared : Log
  pub sys : Sys
  pub runs : Runs

-- Every device is connected to, whether that works or not.
unfoldable pub connect_each : Adb → List Device → Runs → Runs
unfolding connect
connect_each a [] runs = runs
connect_each a (d ∷ ds) runs = connect_each a ds (connect a d.adb_addr runs).1

abbrev connect_listed : Adb → Result (List Device) → Runs → Runs
connect_listed a (ok ds) runs = connect_each a ds runs
connect_listed a (err e) runs = runs

abbrev reconciled : World → Manager → Result (Text → Bool) → Sys → Sys
reconciled w m (ok running) s = (reconcile_store w m running s).1
reconciled w m (err e) s = s

module _ (h : Host) (tar : Text → List TarEntry) (fl : Floats) (a : Adb) where
  abbrev prepare : NodeConfig → Exec Log (List Text) → Log
  prepare c reconciles =
      (make_golden h tar (node_of c) (c.data_root ++ codes "/base") (golden_port c)
        (reconciles []).1).1

  abbrev world_after : NodeConfig → Log → World
  world_after c past = driven (node_of c) (host_after h past) tar fl

  abbrev finish : NodeConfig → Result (Text → Bool) × Log → Db → Booted
  finish c (running, past) db =
      let w = world_after c past in
      let m = manager_of c in
      let s = (ensure w m (reconciled w m running (record { db = db; calls = [] }))).1 in
      let (listed, s') = on_db list_devices s in
      record { prepared = past; sys = s'; runs = connect_listed a listed [] }

  -- Stale containers go, the golden base is made, the store is reconciled with what runs, and the
  -- missing devices are made. An error in one of these does not stop the next. `none` is the panic
  -- of a negative max_devices.
  unfoldable pub start_pool : NodeConfig → Db → Option Booted
  unfolding make_golden reconcile_node running_set reconcile_store ensure list_devices connect_each
  start_pool c db =
      and_then (reconcile_node h c)
        (λ reconciles. some (finish c (running_set h (prepare c reconciles)) db))

-- What is not a duration in a validated configuration stands for none.
unfoldable pub server_of : Config → Option ℕ → Server
server_of c health = record {
  default_ttl = at_most c.default_ttl;
  max_ttl = at_most c.max_ttl;
  min_avail_mib = at_most c.min_avail_mib;
  health = health;
  resets = true;
}

abbrev pub scrcpy_port_base : ℕ
scrcpy_port_base = 27200

unfoldable pub ui_config : Text → UiConfig
ui_config dex_path = record { dex_path = dex_path; port_base = 27400 }
