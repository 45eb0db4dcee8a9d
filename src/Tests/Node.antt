-- ===== src/Tests/Node.antt =====
-- The driver of the tests' pool, on a host that answers every command by 1.
use droidpool.Prelude.{
  ℕ, ◌+◌, ◌*◌, ◌≤◌, ◌≡◌, refl, Bool, true, false, List, [], ◌∷◌, none, some, arith, Text, codes,
  text_eq,
}
use droidpool.Prelude.Int.{pos}
use droidpool.Exec.{ok}
use droidpool.Pool.Location.{Floats}
use droidpool.Pool.Time.{second}
use droidpool.Manager.World.{Sys, World}
use droidpool.Manager.Rebuild.{reset}
use droidpool.Node.Host.{Host, Node, Command, docker_run, ssh_run, slept, Log}
use droidpool.Node.Names.{container_name, sidecar_device_id, shell_quote}
use droidpool.Node.Containers.{wait_boot}
use droidpool.Node.Waits.{IsClock, Ended, wait_boot-Ended}
use droidpool.Node.Props.{TarEntry}
use droidpool.Node.Driver.{driven}
use droidpool.Node.Quoted.{shell_word, bare, shell_word-shell_quote}
use droidpool.Tests.Data.{manager, start}

-- Only sleeping takes time.
abbrev pub time_slept : Log → ℕ
time_slept [] = 0
time_slept (docker_run args ∷ log) = time_slept log
time_slept (ssh_run target cmd ∷ log) = time_slept log
time_slept (slept d ∷ log) = time_slept log + d

abbrev pub host : Host
host = record { output = λ log. ok (codes "1"); wakes = λ log. true; clock = time_slept }

host-IsClock : IsClock host
host-IsClock = record { passes = grows; sleeps = λ d log e. omega arith }
  where
    grows : (c : Command) (log : Log) → time_slept log ≤ time_slept (c ∷ log)
    grows (docker_run args) log = omega arith
    grows (ssh_run target cmd) log = omega arith
    grows (slept d) log = omega arith

abbrev pub node : Node
node = record {
  name = codes "n";
  docker_host = codes "ssh://u@h";
  image = codes "img";
  data_root = codes "/d";
  boot_args = codes "a b";
  egress = true;
  egress_dns = [];
  camera_video_base = pos 20;
  default_identity = none;
  cam_settle = 0;
}

abbrev pub no_floats : Floats
no_floats = record {
  Float = Unit {0};
  zero_float = tt;
  parse_float = λ s. none;
  format_float = λ f. [];
  lt_neg = λ n f. false;
  gt = λ n f. false;
}

abbrev pub no_tar : Text → List TarEntry
no_tar s = []

wait_boot-Ended_example :
    Ended host
      (container_name (codes "n-1"))
      (time_slept [] + 5 * second)
      (wait_boot host (codes "n-1") (5 * second) []).0
      (wait_boot host (codes "n-1") (5 * second) []).1
wait_boot-Ended_example = wait_boot-Ended host host-IsClock (codes "n-1") (5 * second) []

abbrev keeps_first : Text → Bool
keeps_first name = text_eq name (codes "droidpool-n-1")

kept : keeps_first (container_name (codes "n-1")) ≡ true
unfolding text_eq container_name
kept = refl

own : sidecar_device_id (container_name (codes "n-1")) ≡ none
unfolding sidecar_device_id container_name
own = refl

abbrev world_of_host : World
world_of_host = driven node host no_tar no_floats

abbrev after_reset : Sys
after_reset = (reset world_of_host manager (codes "n-1") start).1

shell_word-shell_quote_example : shell_word bare (shell_quote (codes "it's")) ≡ some (codes "it's")
shell_word-shell_quote_example = shell_word-shell_quote (codes "it's")
