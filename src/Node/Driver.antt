-- ===== src/Node/Driver.antt =====
-- internal/node/node.go: creating and removing a device's containers, and the Node as the driver of
-- internal/pool/manager.go.
use droidpool.Prelude.{
  ℕ, Bool, true, List, [], ◌∷◌, ◌++◌, Option, if◌then◌else◌, is_empty, Text, codes,
}
use droidpool.Prelude.Strings.{fields}
use droidpool.Exec.{Exec, pure, attempt, ◌>>=◌, ◌>>◌, is_ok}
use droidpool.Pool.Time.{at}
use droidpool.Pool.Identity.{Identity}
use droidpool.Pool.Location.{Floats}
use droidpool.Manager.World.{
  World, DriverCall, creates, removes, wipes, waits_boot, finishes_egress, sets_egress, sets_camera,
  sets_location,
}
use droidpool.Node.Host.{Host, Node, Log, do_docker, try_docker}
use droidpool.Node.Names.{container_name, tun_name, camera_device, cam_config_path}
use droidpool.Node.Containers.{wait_boot, wipe_data}
use droidpool.Node.Props.{TarEntry, IdentityArgs, identity_args, returned, set_location}
use droidpool.Node.Egress.{start_egress, finish_egress, set_egress, remove_egress, publish_port}
use droidpool.Node.Camera.{write_camera_config, set_camera, remove_cam_feed}

module _ (n : Node) where
  abbrev pub network_args : Text → ℕ → List Text
  network_args id port =
      if n.egress
      then codes "--network" ∷ (codes "container:" ++ tun_name id) ∷ []
      else publish_port port

  abbrev pub camera_args : Text → List Text
  camera_args id =
      if is_empty (camera_device n id)
      then []
      else codes "--device"
        ∷ camera_device n id
        ∷ codes "-v"
        ∷ (cam_config_path n id ++ codes ":/vendor/etc/external_camera_config.xml:ro")
        ∷ []

  abbrev pub volume_args : Text → Text → List Text
  volume_args id overlay =
      if is_empty overlay
      then codes "-v" ∷ (n.data_root ++ (codes "/data/" ++ (id ++ codes ":/data"))) ∷ []
      else codes "-v"
        ∷ (overlay ++ codes ":/data-base")
        ∷ codes "-v"
        ∷ (n.data_root ++ (codes "/diff/" ++ (id ++ codes ":/data-diff")))
        ∷ []

  abbrev pub create_command : Text → ℕ → Text → IdentityArgs → List Text
  create_command id port overlay i =
      (codes "run" ∷ codes "-d" ∷ codes "--privileged" ∷ codes "--name" ∷ container_name id ∷ [])
      ++ (i.mounts
          ++ (network_args id port
              ++ (camera_args id
                  ++ (volume_args id overlay ++ n.image ∷ (fields n.boot_args ++ i.boot)))))

  module _ (h : Host) (tar : Text → List TarEntry) where
    unfoldable pub create : Text → ℕ → Text → Option Identity → Exec Log (Unit {0})
    unfolding identity_args start_egress write_camera_config
    create id port overlay ident = do
      try_docker h (codes "rm" ∷ codes "-f" ∷ container_name id ∷ [])
      i ← identity_args h tar n id ident
      if n.egress then start_egress h n id port else pure tt
      if is_empty (camera_device n id) then pure tt else write_camera_config h n id
      do_docker h (create_command id port overlay i)

    unfoldable pub remove : Text → Exec Log (Unit {0})
    unfolding remove_egress remove_cam_feed
    remove id = do
      r ← attempt (do_docker h (codes "rm" ∷ codes "-f" ∷ container_name id ∷ []))
      remove_egress h id
      remove_cam_feed h n id
      returned r

    module _ (fl : Floats) where
      -- The methods of NodeDriver.
      unfoldable pub perform : DriverCall → Exec Log (Unit {0})
      unfolding create remove
      perform (creates id port overlay ident) = create id port overlay ident
      perform (removes id) = remove id
      perform (finishes_egress id) = finish_egress h n id
      perform (wipes id overlay) = wipe_data h n id overlay
      perform (waits_boot id limit) = wait_boot h id limit
      perform (sets_egress id proxy) = set_egress h id proxy
      perform (sets_camera id rtsp) = set_camera h n id rtsp
      perform (sets_location id location) = set_location h fl id location

      -- The commands that the calls have run, the newest call first.
      unfoldable pub commands : List DriverCall → Log
      unfolding perform
      commands [] = []
      commands (c ∷ calls) = (perform c (commands calls)).1

      abbrev answer : List DriverCall → Bool
      answer [] = true
      answer (c ∷ calls) = is_ok (perform c (commands calls)).0

      -- The node that the manager of this host works with.
      abbrev pub driven : World
      driven = record { answers = answer; clock = λ calls. at (h.clock (commands calls)) }
