-- ===== src/Tests/Server.antt =====
-- A scrcpy server that never answers.
use droidpool.Prelude.{ℕ, ◌+◌, ◌≤◌, ◌≡◌, ◌⊎◌, true, false, [], ◌∷◌, codes, arith}
use droidpool.Exec.{err, bad_options, adb_failed}
use droidpool.Scrcpy.Server.{
  Options, Event, runs, launches, waited, dials, closes_video, closes_control, kills, Log, refused,
  Outside, remove_forward, push_jar, add_forward, stop_all, interval, start,
}
use droidpool.Scrcpy.Server.Stopped.{IsClock, Ended, IsStuck, HasScreen, start-Ends}

abbrev time_of : Log → ℕ
time_of [] = 0
time_of (waited ∷ log) = time_of log + interval
time_of (e ∷ log) = time_of log

abbrev silent : Outside
silent = record {
  succeeds = λ l. true;
  dialed = λ l. refused;
  wakes = λ l. true;
  bytes = λ l. [];
  ends = λ l. true;
  clock = time_of;
}

silent-passes : (e : Event) (log : Log) → time_of log ≤ time_of (e ∷ log)
silent-passes waited log = omega arith
silent-passes (runs args) log = omega arith
silent-passes (launches args) log = omega arith
silent-passes (dials port) log = omega arith
silent-passes closes_video log = omega arith
silent-passes closes_control log = omega arith
silent-passes kills log = omega arith

silent-IsClock : IsClock silent
silent-IsClock = record { passes = silent-passes; waits = λ log h. omega arith }

abbrev options : Options
options = record {
  serial = codes "h:1";
  server_jar = codes "s.jar";
  local_port = 27201;
  max_fps = 15;
  bit_rate = 0;
  max_size = 0;
}

start-Ends_example :
    let x = start silent options (codes "0000002a") [] in
    let pushed = push_jar options ∷ stop_all ∷ [] in
    let forwarded = add_forward options (codes "0000002a") ∷ remove_forward options ∷ pushed in
    Ended HasScreen options (codes "0000002a") x
    ⊎ IsStuck silent x
    ⊎ (x ≡ (err bad_options, []))
    ⊎ (x ≡ (err adb_failed, pushed))
    ⊎ (x ≡ (err adb_failed, forwarded)) × (silent.succeeds forwarded ≡ false)
start-Ends_example = start-Ends silent options (codes "0000002a") silent-IsClock []
