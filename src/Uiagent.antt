-- ===== src/Uiagent.antt =====
-- internal/uiagent/uiagent.go: the agent on a device that dumps its view. Running adb, the agent's
-- answers, the context and the clock are parameters, which may depend on all that was done before.
pub mod Answered
pub mod Lines
use droidpool.Prelude.{
  ℕ, zero, suc, ◌+◌, ◌*◌, ◌/◌, ◌^◌, Bool, true, false, not, ◌||◌, List, [], ◌∷◌, ◌++◌, Option, none,
  some, if◌then◌else◌, ltb, leb, ◌==◌, is_empty, is_some, length, Text, codes, text_eq,
}
use droidpool.Prelude.Decimal.{decimal}
use droidpool.Prelude.Strings.{trim_space}
use droidpool.Exec.{
  Result, ok, err, Exec, pure, raise, attempt, ignore, ◌>>=◌, ◌>>◌, bad_options, adb_failed,
  request_failed, too_long, dump_failed, timed_out, cancelled, diverged,
}
use droidpool.Manager.Index.{strip_prefix}
use droidpool.Api.Urls.{has_prefix}

pub record Options : Type 0 where
  pub serial : Text
  pub dex_path : Text
  pub local_port : ℕ

pub record Session : Type 0 where
  pub options : Options
  pub reused : Bool

-- `runs` is adb with these arguments on the device; `asks` is a request to this local port.
pub data Event : Type 0 where
  runs : Text → List Text → Event
  asks : ℕ → Text → Event
  slept : ℕ → Event

abbrev pub Log : Type 0
Log = List Event

-- The newest event is told from all events so far: whether adb succeeds, what is read of the answer
-- to a request, if it can be made, in the chunks that ReadLine gives, whether the context is still
-- alive, and what time it is.
pub record Agent : Type 0 where
  pub succeeds : Log → Bool
  pub chunks : Log → Option (List (Text × Bool))
  pub alive : Log → Bool
  pub clock : Log → ℕ

abbrev pub main_class : Text
main_class = codes "com.daboshi.droidpool.UiAgent"

abbrev pub device_path : Text
device_path = codes "/data/local/tmp/droidpool-uiagent.dex"

abbrev pub device_port : ℕ
device_port = 27400

abbrev pub max_dump_bytes : ℕ
max_dump_bytes = 8 * 2 ^ 20

-- A chunk comes with whether the line goes on. The chunks end where reading fails.
unfoldable pub read_limited_line : ℕ → Text → List (Text × Bool) → Result Text
read_limited_line limit sb [] = err request_failed
read_limited_line limit sb ((chunk, more) ∷ rest) =
    let next = read_limited_line limit (sb ++ chunk) rest in
    if ltb limit (length sb + length chunk)
    then err too_long
    else if more
    then next
    else ok (sb ++ chunk)

abbrev pub read_answer : Option (List (Text × Bool)) → Result Text
read_answer none = err request_failed
read_answer (some cs) = read_limited_line max_dump_bytes [] cs

abbrev pub is_pong : Result Text → Bool
is_pong (ok out) = text_eq (trim_space out) (codes "PONG")
is_pong (err e) = false

abbrev pub tcp : ℕ → Text
tcp port = codes "tcp:" ++ decimal port

unfoldable pub start_command : Text
start_command =
    codes "CLASSPATH="
    ++ (device_path
        ++ (codes " nohup app_process / "
            ++ (main_class
                ++ (codes " port=27400 > /data/local/tmp/droidpool-uiagent.log 2>&1 &"))))

abbrev pub interval : ℕ
interval = 200 * 10 ^ 6

abbrev pub ready_limit : ℕ
ready_limit = 15 * 10 ^ 9

abbrev pub lacks_option : Options → Bool
lacks_option opt = is_empty opt.serial || (is_empty opt.dex_path || (opt.local_port == 0))

module _ (a : Agent) where
  unfoldable pub adb_cmd : Options → List Text → Exec Log (Unit {0})
  adb_cmd opt args log =
      let log' = runs opt.serial args ∷ log in
      (if a.succeeds log' then ok tt else err adb_failed, log')

  unfoldable pub request : Options → Text → Exec Log Text
  unfolding read_limited_line
  request opt cmd log =
      let log' = asks opt.local_port cmd ∷ log in (read_answer (a.chunks log'), log')

  unfoldable pub forward : Options → Exec Log (Unit {0})
  unfolding adb_cmd
  forward opt = do
    ignore (adb_cmd opt (codes "forward" ∷ codes "--remove" ∷ tcp opt.local_port ∷ []))
    adb_cmd opt (codes "forward" ∷ tcp opt.local_port ∷ tcp device_port ∷ [])

  abbrev pub check_pong :
      Exec Log (Unit {0}) → Exec Log (Unit {0}) → Result Text → Exec Log (Unit {0})
  check_pong yes_then no_then r = if is_pong r then yes_then else no_then

  abbrev pub sleep : ℕ → Exec Log (Unit {0})
  sleep d log = (ok tt, slept d ∷ log)

  -- The loop of waitReady; the fuel is the number of rounds.
  unfoldable pub ready_rounds : Options → ℕ → ℕ → Exec Log (Unit {0})
  unfolding request
  ready_rounds opt deadline zero log = (err diverged, log)
  ready_rounds opt deadline (suc f) log =
      if not (ltb (a.clock log) deadline)
      then (err timed_out, log)
      else if not (a.alive log)
      then (err cancelled, log)
      else (do
        r ← attempt (request opt (codes "PING"))
        check_pong (pure tt) (sleep interval >> ready_rounds opt deadline f) r)
          log

  unfoldable pub wait_ready : Options → Exec Log (Unit {0})
  unfolding ready_rounds
  wait_ready opt log = ready_rounds opt (a.clock log + ready_limit) (ready_limit / interval + 1) log

  unfoldable pub cold_start : Options → Exec Log (Unit {0})
  unfolding adb_cmd wait_ready
  cold_start opt = do
    ignore (adb_cmd opt (codes "shell" ∷ codes "pkill" ∷ codes "-f" ∷ main_class ∷ []))
    adb_cmd opt (codes "push" ∷ codes "--sync" ∷ opt.dex_path ∷ device_path ∷ [])
    adb_cmd opt (codes "shell" ∷ start_command ∷ [])
    wait_ready opt

  unfoldable pub start_or_reuse : Options → Result Text → Exec Log Session
  unfolding cold_start
  start_or_reuse opt r =
      if is_pong r
      then pure (record { options = opt; reused = true })
      else (do cold_start opt; pure (record { options = opt; reused = false }))

  unfoldable pub start : Options → Exec Log Session
  unfolding forward request start_or_reuse
  start opt =
      if lacks_option opt
      then raise bad_options
      else (do forward opt; r ← attempt (request opt (codes "PING")); start_or_reuse opt r)

  abbrev pub unless_error : Text → Exec Log Text
  unless_error out = if has_prefix (codes "ERR ") out then raise dump_failed else pure out

  unfoldable pub dump : Session → Exec Log Text
  unfolding request strip_prefix
  dump s = do out ← request s.options (codes "DUMP"); unless_error out

  -- The forward on this machine is given up, and the agent keeps running.
  unfoldable pub close : Session → Exec Log (Unit {0})
  unfolding adb_cmd
  close s =
      ignore
        (adb_cmd s.options (codes "forward" ∷ codes "--remove" ∷ tcp s.options.local_port ∷ []))

  unfoldable pub stop : Session → Exec Log (Unit {0})
  unfolding adb_cmd close
  stop s = do
    ignore (adb_cmd s.options (codes "shell" ∷ codes "pkill" ∷ codes "-f" ∷ main_class ∷ []))
    close s
