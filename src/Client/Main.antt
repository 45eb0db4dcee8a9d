-- ===== src/Client/Main.antt =====
-- cmd/droidpool/main.go: which command is run, and which heartbeats go before it; `ui-dump` and
-- `devices`. Flags other than those of `run` are given as what they come to.
use droidpool.Prelude.{
  ℕ, zero, suc, Bool, not, List, [], ◌∷◌, Option, none, some, if◌then◌else◌, is_empty, Text, codes,
  text_eq,
}
use droidpool.Client.{Outside, Run, done, exit, fatal, ◌>>=◌, ◌>>◌, load_state, call, has_no}
use droidpool.Client.Commands.{touch_if_leased}
use droidpool.Client.Device.{check}

pub data Command : Type 0 where
  claim addr status release seed_edge battery ui_dump camera identity location : Command
  run watch heartbeat devices help : Command

unfoldable pub command_of : Text → Option Command
unfolding text_eq
command_of s =
    if text_eq s (codes "claim")
    then some claim
    else if text_eq s (codes "addr")
    then some addr
    else if text_eq s (codes "status")
    then some status
    else if text_eq s (codes "release")
    then some release
    else if text_eq s (codes "seed-edge")
    then some seed_edge
    else if text_eq s (codes "battery")
    then some battery
    else if text_eq s (codes "ui-dump")
    then some ui_dump
    else if text_eq s (codes "camera")
    then some camera
    else if text_eq s (codes "identity")
    then some identity
    else if text_eq s (codes "location")
    then some location
    else if text_eq s (codes "run")
    then some run
    else if text_eq s (codes "watch")
    then some watch
    else if text_eq s (codes "heartbeat")
    then some heartbeat
    else if text_eq s (codes "devices")
    then some devices
    else if text_eq s (codes "-h")
    then some help
    else if text_eq s (codes "--help")
    then some help
    else if text_eq s (codes "help")
    then some help
    else none

-- The settings: the server's address and the token. `in_time` says whether the heartbeat that
-- `addr` starts in the background is made before the program ends.
pub record Settings : Type 0 where
  pub base : Text
  pub token : Text
  pub in_time : Bool

module _ (o : Outside) (commands : Command → List Text → Run (Unit {0})) where
  -- Printing the address needs the local record.
  unfoldable pub cmd_addr : Bool → Run (Unit {0})
  unfolding touch_if_leased load_state
  cmd_addr in_time = do if in_time then touch_if_leased o else done tt; st ← load_state; done tt

  unfoldable pub dispatch : Settings → List Text → Option Command → Run (Unit {0})
  unfolding cmd_addr
  dispatch e args none = fatal
  dispatch e args (some help) = done tt
  dispatch e args (some claim) = commands claim args
  dispatch e args (some addr) = cmd_addr e.in_time
  dispatch e args (some release) = commands release args
  dispatch e args (some watch) = commands watch args
  dispatch e args (some heartbeat) = touch_if_leased o
  dispatch e args (some c) = do touch_if_leased o; commands c args

  abbrev configured : Settings → List Text → Option Command → Run (Unit {0})
  configured e args (some help) = done tt
  configured e args c =
      if is_empty e.base then fatal else if is_empty e.token then fatal else dispatch e args c

  -- The arguments without the program's name. Help is given without any settings.
  unfoldable pub main : Settings → List Text → Run (Unit {0})
  unfolding command_of dispatch
  main e [] = exit 2
  main e (c ∷ args) = configured e args (command_of c)

module _ (o : Outside) where
  unfoldable pub cmd_devices : Run (Unit {0})
  unfolding call
  cmd_devices = do a ← call o (codes "GET") (codes "/api/devices") []; check (has_no a.failure)

  -- Starting the agent, a dump and closing it again are arguments.
  module _ {A : Type 0} (start : Text → Run A) (dump : A → Run (Unit {0}))
      (close : A → Run (Unit {0})) where
    unfoldable pub dumps : ℕ → A → Run (Unit {0})
    dumps zero s = done tt
    dumps (suc k) s = do dump s; dumps k s

    -- `times` is how often, which is not at all for a number that is negative.
    unfoldable pub cmd_ui_dump : Text → ℕ → Run (Unit {0})
    unfolding dumps
    cmd_ui_dump dex times = do
      check (not (is_empty dex))
      st ← load_state
      s ← start st.adb_addr
      dumps times s
      close s
