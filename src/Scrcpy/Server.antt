-- ===== src/Scrcpy/Server.antt =====
-- internal/scrcpy/scrcpy.go: starting the scrcpy server on a device, connecting to it, and stopping it.
-- Running adb, the connections, the bytes that the server sends, the context and the clock are
-- parameters, which may depend on all that was done before. Forwarding the server's log is left out.
pub mod Stopped
use droidpool.Prelude.{
  ℕ, zero, suc, ◌+◌, ◌*◌, ◌/◌, ◌%◌, ◌^◌, Bool, true, false, not, ◌||◌, List, [], ◌∷◌, ◌++◌, Option,
  none, some, if◌then◌else◌, ltb, ◌==◌, is_empty, Text, codes,
}
use Prim.Native.String.{String}
use droidpool.Prelude.Decimal.{decimal}
use droidpool.Exec.{
  Error, Result, ok, err, bad_options, adb_failed, request_failed, timed_out, cancelled, diverged,
}
use droidpool.Scrcpy.BigEndian.{Bytes}
use droidpool.Scrcpy.Stream.{short_read, Read, done, failed, Screen, handshake}

pub record Options : Type 0 where
  pub serial : Text
  pub server_jar : Text
  pub local_port : ℕ
  pub max_fps : ℕ
  pub bit_rate : ℕ
  pub max_size : ℕ

-- `runs` is adb on the device, `launches` is adb started for the server and left running.
pub data Event : Type 0 where
  runs launches : List Text → Event
  waited : Event
  dials : ℕ → Event
  closes_video closes_control kills : Event

abbrev pub Log : Type 0
Log = List Event

-- A connection is refused, or closed before a byte was read from it, or it is alive.
pub data Dialed : Type 0 where
  refused dead alive : Dialed

pub record Outside : Type 0 where
  pub succeeds : Log → Bool
  pub dialed : Log → Dialed
  -- whether a wait ended by the timer, and not by the context
  pub wakes : Log → Bool
  -- the bytes that the video socket gives, and whether it ends after them or stays open
  pub bytes : Log → Bytes
  pub ends : Log → Bool
  pub clock : Log → ℕ

-- The resources of a session.
pub record Session : Type 0 where
  pub options : Options
  pub scid : Text
  pub command : Bool
  pub process : Bool
  pub video : Bool
  pub control : Bool
  pub forwards : Bool
  pub closed : Bool
  pub screen : Option Screen

abbrev pub device_path : Text
device_path = codes "/data/local/tmp/droidpool-scrcpy-server.jar"

abbrev tcp : ℕ → Text
tcp port = codes "tcp:" ++ decimal port

abbrev pub remove_forward : Options → Event
remove_forward opt = runs (codes "forward" ∷ codes "--remove" ∷ tcp opt.local_port ∷ [])

abbrev pub push_jar : Options → Event
push_jar opt = runs (codes "push" ∷ codes "--sync" ∷ opt.server_jar ∷ device_path ∷ [])

abbrev pub add_forward : Options → Text → Event
add_forward opt scid =
    runs (codes "forward" ∷ tcp opt.local_port ∷ (codes "localabstract:scrcpy_" ++ scid) ∷ [])

abbrev pub stop_all : Event
stop_all =
    runs (codes "shell" ∷ codes "pkill" ∷ codes "-f" ∷ codes "com.genymobile.scrcpy.Server" ∷ [])

abbrev pub stop_own : Text → Event
stop_own scid = runs (codes "shell" ∷ codes "pkill" ∷ codes "-f" ∷ (codes "scid=" ++ scid) ∷ [])

abbrev setting : String → ℕ → List Text
setting name n = if ltb 0 n then (codes name ++ decimal n) ∷ [] else []

unfoldable pub server_args : Options → Text → List Text
server_args opt scid =
    codes "shell"
    ∷ (codes "CLASSPATH=" ++ device_path)
    ∷ codes "app_process"
    ∷ codes "/"
    ∷ codes "com.genymobile.scrcpy.Server"
    ∷ codes "4.1"
    ∷ (codes "scid=" ++ scid)
    ∷ codes "log_level=info"
    ∷ codes "audio=false"
    ∷ codes "tunnel_forward=true"
    ∷ (setting "max_fps=" opt.max_fps
        ++ (setting "video_bit_rate=" opt.bit_rate ++ setting "max_size=" opt.max_size))

abbrev pub noted_if : Bool → Event → Log → Log
noted_if b e log = if b then e ∷ log else log

-- A session is closed once; what adb answers is not looked at.
unfoldable pub close : Session → Log → Session × Log
close s log = if s.closed then (s, log) else (
  record s { closed = true },
  noted_if s.forwards (remove_forward s.options) (
      noted_if s.process kills (
        noted_if s.command (stop_own s.scid)
          (noted_if s.control closes_control (noted_if s.video closes_video log)))),
)

-- Whether reading may go on; `running` is that the process can be signalled.
unfoldable pub is_alive : Bool → Session → Bool
is_alive running s = if s.closed then false else if s.process then running else true

abbrev pub interval : ℕ
interval = 100 * 10 ^ 6

abbrev pub connect_limit : ℕ
connect_limit = 15 * 10 ^ 9

abbrev pub lacks_option : Options → Bool
lacks_option opt = is_empty opt.serial || (is_empty opt.server_jar || (opt.local_port == 0))

abbrev pub fresh : Options → Text → Session
fresh opt scid = record {
  options = opt;
  scid = scid;
  command = true;
  process = false;
  video = false;
  control = false;
  forwards = true;
  closed = false;
  screen = none;
}

abbrev pub Opened : Type 0
Opened = Result Session × Log

abbrev pub fail_closed : Error → Session → Log → Opened
fail_closed e s log = (err e, (close s log).1)

module _ (o : Outside) where
  abbrev pub control_dialed : Session → Log → Dialed → Opened
  control_dialed s log refused = fail_closed request_failed s log
  control_dialed s log dead = (ok (record s { control = true }), log)
  control_dialed s log alive = (ok (record s { control = true }), log)

  -- The control socket comes second.
  abbrev pub dial_control : Session → Log → Opened
  dial_control s log =
      let log' = dials s.options.local_port ∷ log in control_dialed s log' (o.dialed log')

  abbrev pub is_up : Dialed → Bool
  is_up alive = true
  is_up d = false

  -- The loop for the video socket; the fuel is the number of rounds.
  unfoldable pub connect_rounds : Session → ℕ → ℕ → Log → Opened
  connect_rounds s deadline zero log = fail_closed diverged s log
  connect_rounds s deadline (suc f) log =
      let dialed = dials s.options.local_port ∷ waited ∷ log in
      let again = connect_rounds s deadline f dialed in
      if not (ltb (o.clock log) deadline)
      then fail_closed timed_out s log
      else if not (o.wakes (waited ∷ log))
      then fail_closed cancelled s (waited ∷ log)
      else if is_up (o.dialed dialed)
      then dial_control (record s { video = true }) dialed
      else again

  unfoldable pub connect : Session → Log → Opened
  unfolding connect_rounds
  connect s log = connect_rounds s (o.clock log + connect_limit) (connect_limit / interval + 1) log

  -- The deadline is off: reading more than comes from a socket that stays open does not return,
  -- which `diverged` stands for.
  abbrev pub read_screen : Session → Log → Read Screen → Opened
  read_screen s log (done sc rest) = (ok (record s { screen = some sc }), log)
  read_screen s log (failed short_read) =
      if o.ends log then fail_closed request_failed s log else (err diverged, log)
  read_screen s log (failed e) = fail_closed request_failed s log

  abbrev pub greet : Opened → Opened
  greet (err e, log) = (err e, log)
  greet (ok s, log) = read_screen s log (handshake (o.bytes log))

  -- From the start of the server on.
  unfoldable pub launch : Options → Text → Log → Opened
  unfolding server_args close connect handshake
  launch opt scid log =
      let log' = launches (server_args opt scid) ∷ log in
      if o.succeeds log'
      then greet (connect (record (fresh opt scid) { process = true }) log')
      else fail_closed adb_failed (fresh opt scid) log'

  unfoldable pub start : Options → Text → Log → Opened
  unfolding launch
  start opt scid log =
      let pushed = push_jar opt ∷ stop_all ∷ log in
      let forwarded = add_forward opt scid ∷ remove_forward opt ∷ pushed in
      if lacks_option opt
      then (err bad_options, log)
      else if not (o.succeeds pushed)
      then (err adb_failed, pushed)
      else if not (o.succeeds forwarded)
      then (err adb_failed, forwarded)
      else launch opt scid forwarded
