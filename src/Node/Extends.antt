-- ===== src/Node/Extends.antt =====
-- The driver of internal/node only adds to the commands that were run on its host.
use droidpool.Prelude.{
  ℕ, zero, suc, ◌*◌, List, [], ◌∷◌, ◌++◌, Option, none, some, inl, inr, Option-cases, Text, codes,
  ltb, is_empty,
}
use droidpool.Exec.{Result, Exec, bad_identity, timed_out}
use droidpool.Exec.Keeps.{
  Keeps, Keeps-bind, Keeps-if, Keeps-attempt, Keeps-then, Keeps-pure, Keeps-raise, keeps_rules,
}
use droidpool.Pool.Time.{second}
use droidpool.Pool.Identity.{Identity, validate}
use droidpool.Pool.Location.{Floats}
use droidpool.Manager.World.{
  DriverCall, creates, removes, wipes, waits_boot, finishes_egress, sets_egress, sets_camera,
  sets_location,
}
use droidpool.Node.Host.{
  Host, Node, Command, Log, docker_run, slept, docker, do_docker, try_docker, now, sleep,
}
use droidpool.Node.Names.{camera_device}
use droidpool.Node.Containers.{boot_rounds, wait_boot, wipe_data, says_one}
use droidpool.Node.Props.{
  TarEntry, identity_args, prop_script, first_file_in_tar, prop_files, finally, checked, returned,
  set_location,
}
use droidpool.Node.Egress.{
  ensure_egress_network, start_relay, start_tun, add_routes, apply_egress_routes, start_egress,
  finish_egress, set_egress, remove_egress,
}
use droidpool.Node.Camera.{
  write_camera_config, rescan_camera, start_feed, set_camera, remove_cam_feed,
}
use droidpool.Node.Driver.{create, remove, perform}

-- The log is `base` with newer commands in front.
pub data Extends (base : Log) : Log → Type 0 where
  same : Extends base base
  newer : {log : Log} (c : Command) → Extends base log → Extends base (c ∷ log)

module _ (h : Host) (base : Log) where
  Grows-docker : (args : List Text) → Keeps (Extends base) (docker h args)
  unfolding docker
  Grows-docker args = record { at = λ log e. newer (docker_run args) e }

  Grows-try_docker : (args : List Text) → Keeps (Extends base) (try_docker h args)
  unfolding try_docker
  Grows-try_docker args = record { at = λ log e. newer (docker_run args) e }

  Grows-do_docker : (args : List Text) → Keeps (Extends base) (do_docker h args)
  unfolding do_docker
  Grows-do_docker args = record { at = λ log e. newer (docker_run args) e }

  Grows-now : Keeps (Extends base) (now h)
  unfolding now
  Grows-now = record { at = λ log e. e }

  Grows-sleep : (d : ℕ) → Keeps (Extends base) (sleep h d)
  unfolding sleep
  Grows-sleep d = record { at = λ log e. newer (slept d) e }

  ensure_egress_network-Grows : Keeps (Extends base) (ensure_egress_network h)
  unfolding ensure_egress_network
  ensure_egress_network-Grows = search (keeps_rules, Grows-try_docker, Grows-docker)

  start_relay-Grows : (id proxy : Text) → Keeps (Extends base) (start_relay h id proxy)
  unfolding start_relay
  start_relay-Grows id proxy = search (keeps_rules, Grows-try_docker, Grows-do_docker)

  start_tun-Grows :
      (id : Text) (port : ℕ) (dns : Text) → Keeps (Extends base) (start_tun h id port dns)
  unfolding start_tun
  start_tun-Grows id port dns = search (keeps_rules, Grows-try_docker, Grows-do_docker)

  boot_rounds-Grows :
      (name : Text) (deadline f : ℕ) → Keeps (Extends base) (boot_rounds h name deadline f)
  unfolding boot_rounds
  boot_rounds-Grows name deadline zero = search keeps_rules
  boot_rounds-Grows name deadline (suc f) = Keeps-bind _ _ (Keeps-attempt _ (Grows-docker _)) λ r.
      Keeps-if (says_one r) _ _ (Keeps-pure tt) (
        Keeps-bind _ _ Grows-now λ t.
          Keeps-if (ltb deadline t) _ _ (Keeps-raise timed_out)
            (Keeps-then _ _ (Grows-sleep (2 * second)) (boot_rounds-Grows name deadline f)))

  wait_boot-Grows : (id : Text) (timeout : ℕ) → Keeps (Extends base) (wait_boot h id timeout)
  unfolding wait_boot
  wait_boot-Grows id timeout = record { at = λ log e. (boot_rounds-Grows _ _ _).at log e }

  wipe_data-Grows : (n : Node) (id overlay : Text) → Keeps (Extends base) (wipe_data h n id overlay)
  unfolding wipe_data
  wipe_data-Grows n id overlay = Grows-do_docker _

  add_routes-Grows :
      (id gateway : Text) (l : List Text) → Keeps (Extends base) (add_routes h id gateway l)
  unfolding add_routes
  add_routes-Grows id gateway [] = search keeps_rules
  add_routes-Grows id gateway (c ∷ l) =
      Keeps-then _ _ (Grows-do_docker _) (add_routes-Grows id gateway l)

  apply_egress_routes-Grows :
      (id gateway : Text) → Keeps (Extends base) (apply_egress_routes h id gateway)
  unfolding apply_egress_routes
  apply_egress_routes-Grows id gateway = search (keeps_rules, Grows-do_docker, add_routes-Grows)

  start_egress-Grows :
      (n : Node) (id : Text) (port : ℕ) → Keeps (Extends base) (start_egress h n id port)
  unfolding start_egress
  start_egress-Grows n id port =
      search (keeps_rules, ensure_egress_network-Grows, start_relay-Grows, start_tun-Grows)

  finish_egress-Grows : (n : Node) (id : Text) → Keeps (Extends base) (finish_egress h n id)
  unfolding finish_egress
  finish_egress-Grows n id =
      search (keeps_rules, ensure_egress_network-Grows, apply_egress_routes-Grows)

  set_egress-Grows : (id proxy : Text) → Keeps (Extends base) (set_egress h id proxy)
  unfolding set_egress
  set_egress-Grows id proxy = search (keeps_rules, ensure_egress_network-Grows, start_relay-Grows)

  remove_egress-Grows : (id : Text) → Keeps (Extends base) (remove_egress h id)
  unfolding remove_egress
  remove_egress-Grows id = search (keeps_rules, Grows-try_docker)

  write_camera_config-Grows :
      (n : Node) (id : Text) → Keeps (Extends base) (write_camera_config h n id)
  unfolding write_camera_config
  write_camera_config-Grows n id = search (keeps_rules, Grows-do_docker)

  rescan_camera-Grows : (n : Node) (id : Text) → Keeps (Extends base) (rescan_camera h n id)
  unfolding rescan_camera
  rescan_camera-Grows n id = search (keeps_rules, Grows-sleep, Grows-do_docker)

  start_feed-Grows : (n : Node) (id rtsp : Text) → Keeps (Extends base) (start_feed h n id rtsp)
  unfolding start_feed
  start_feed-Grows n id rtsp = search (keeps_rules, Grows-do_docker, rescan_camera-Grows)

  set_camera-Grows : (n : Node) (id rtsp : Text) → Keeps (Extends base) (set_camera h n id rtsp)
  unfolding set_camera
  set_camera-Grows n id rtsp = search (keeps_rules, Grows-try_docker, start_feed-Grows)

  remove_cam_feed-Grows : (n : Node) (id : Text) → Keeps (Extends base) (remove_cam_feed h n id)
  unfolding remove_cam_feed
  remove_cam_feed-Grows n id = Grows-try_docker _

  set_location-Grows :
      (fl : Floats) (id location : Text) → Keeps (Extends base) (set_location h fl id location)
  unfolding set_location
  set_location-Grows fl id location = search (keeps_rules, Grows-do_docker)

  finally-Grows :
      {A : Type 0} (m : Exec Log A) (last : Exec Log (Unit {0}))
      → Keeps (Extends base) m
      → Keeps (Extends base) last
      → Keeps (Extends base) (finally m last)
  unfolding finally
  finally-Grows m last km kl = record { at = λ log e. kl.at (m log).1 (km.at log e) }

module _ (h : Host) (base : Log) (tar : Text → List TarEntry) (n : Node) where
  checked-Grows : (i : Identity) → Keeps (Extends base) (checked i)
  unfolding checked
  checked-Grows i = elim (Option-cases (validate i)) [
    | inl e ↦ rw e (Keeps-pure tt)
    | inr (x, e) ↦ rw e (Keeps-raise (bad_identity x))
  ]

  returned-Grows : {A : Type 0} (r : Result A) → Keeps (Extends base) (returned r)
  unfolding returned
  returned-Grows r = record { at = λ log e. e }

  prop_script-Grows :
      (tmp name : Text) (i : Identity) (files : List (Text × Text))
      → Keeps (Extends base) (prop_script h tar tmp name i files)
  unfolding prop_script
  prop_script-Grows tmp name i [] = search keeps_rules
  prop_script-Grows tmp name i ((path, file) ∷ files) =
      Keeps-bind _ _ (Grows-docker h base _) λ out.
        Keeps-bind _ _ (returned-Grows (first_file_in_tar (tar out)))
          λ content. Keeps-bind _ _ (prop_script-Grows tmp name i files) λ rest. Keeps-pure _

  identity_args-Grows :
      (name : Text) (i : Option Identity) → Keeps (Extends base) (identity_args h tar n name i)
  unfolding identity_args
  identity_args-Grows name none = search keeps_rules
  identity_args-Grows name (some i) =
      let tmp = codes "droidpool-props-" ++ name in
      Keeps-then _ _ (checked-Grows i) (
        Keeps-then _ _ (Grows-try_docker h base _) (
          Keeps-then _ _ (Grows-do_docker h base _) (
            finally-Grows h base _ _
              (Keeps-bind _ _ (prop_script-Grows tmp name i prop_files)
                λ files. Keeps-then _ _ (Grows-do_docker h base _) (Keeps-pure _))
              (Grows-try_docker h base _))))

  create-Grows :
      (id : Text) (port : ℕ) (overlay : Text) (i : Option Identity)
      → Keeps (Extends base) (create n h tar id port overlay i)
  unfolding create
  create-Grows id port overlay i = Keeps-then _ _ (Grows-try_docker h base _) (
      Keeps-bind _ _ (identity_args-Grows id i) λ args.
        Keeps-then _ _ (Keeps-if n.egress _ _ (start_egress-Grows h base n id port) (Keeps-pure tt))
          (Keeps-then _ _
            (Keeps-if (is_empty (camera_device n id)) _ _ (Keeps-pure tt)
              (write_camera_config-Grows h base n id))
            (Grows-do_docker h base _)))

  remove-Grows : (id : Text) → Keeps (Extends base) (remove n h tar id)
  unfolding remove
  remove-Grows id = search (
    keeps_rules,
    Grows-do_docker h base,
    remove_egress-Grows h base,
    remove_cam_feed-Grows h base,
    returned-Grows,
  )

module _ (n : Node) (h : Host) (tar : Text → List TarEntry) (fl : Floats) where
  -- Whatever a call comes to, the commands before it stay below its own.
  pub perform-Extends : (c : DriverCall) (log : Log) → Extends log (perform n h tar fl c log).1
  unfolding perform
  perform-Extends (creates id port overlay i) log =
      (create-Grows h log tar n id port overlay i).at log same
  perform-Extends (removes id) log = (remove-Grows h log tar n id).at log same
  perform-Extends (finishes_egress id) log = (finish_egress-Grows h log n id).at log same
  perform-Extends (wipes id overlay) log = (wipe_data-Grows h log n id overlay).at log same
  perform-Extends (waits_boot id limit) log = (wait_boot-Grows h log id limit).at log same
  perform-Extends (sets_egress id proxy) log = (set_egress-Grows h log id proxy).at log same
  perform-Extends (sets_camera id rtsp) log = (set_camera-Grows h log n id rtsp).at log same
  perform-Extends (sets_location id l) log = (set_location-Grows h log fl id l).at log same
