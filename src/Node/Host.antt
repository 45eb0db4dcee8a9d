-- ===== src/Node/Host.antt =====
-- internal/node/node.go: the settings of a Node, and the commands that it runs on its host. The host
-- is a parameter: how it answers may depend on every command that was run before.
use droidpool.Prelude.{ℕ, Bool, if◌then◌else◌, List, ◌∷◌, Option, Text, codes}
use droidpool.Prelude.Int.{ℤ}
use droidpool.Exec.{Result, ok, err, Exec, cancelled}
use droidpool.Pool.Identity.{Identity}
use droidpool.Api.Urls.{trim_prefix}

-- `docker` is run against the node's DOCKER_HOST, `ssh` on the host itself, and a sleep is the wait
-- for time.After.
pub data Command : Type 0 where
  docker_run : List Text → Command
  ssh_run : Text → Text → Command
  slept : ℕ → Command

abbrev pub Log : Type 0
Log = List Command

-- All is told by the commands so far, the newest first: what the newest one answers, whether the
-- sleep at the front of them ended by the timer and not by the context, and what time it is.
pub record Host : Type 0 where
  pub output : Log → Result Text
  pub wakes : Log → Bool
  pub clock : Log → ℕ

pub record Node : Type 0 where
  pub name : Text
  pub docker_host : Text
  pub image : Text
  pub data_root : Text
  pub boot_args : Text
  pub egress : Bool
  pub egress_dns : Text
  pub camera_video_base : ℤ
  pub default_identity : Option Identity
  pub cam_settle : ℕ

abbrev pub without_output : Result Text → Result (Unit {0})
without_output (ok out) = ok tt
without_output (err e) = err e

module _ (h : Host) where
  unfoldable pub docker : List Text → Exec Log Text
  docker args log = (h.output (docker_run args ∷ log), docker_run args ∷ log)

  -- `_, _ = n.docker(…)`
  unfoldable pub try_docker : List Text → Exec Log (Unit {0})
  try_docker args log = (ok tt, docker_run args ∷ log)

  -- `_, err = n.docker(…); return err`
  unfoldable pub do_docker : List Text → Exec Log (Unit {0})
  do_docker args log = (without_output (h.output (docker_run args ∷ log)), docker_run args ∷ log)

  unfoldable pub ssh : Node → Text → Exec Log Text
  ssh n cmd log =
      let c = ssh_run (trim_prefix (codes "ssh://") n.docker_host) cmd in
      (h.output (c ∷ log), c ∷ log)

  -- time.Now()
  unfoldable pub now : Exec Log ℕ
  now log = (ok (h.clock log), log)

  -- select { case <-ctx.Done(): return ctx.Err(); case <-time.After(d): }
  unfoldable pub sleep : ℕ → Exec Log (Unit {0})
  sleep d log = (if h.wakes (slept d ∷ log) then ok tt else err cancelled, slept d ∷ log)
