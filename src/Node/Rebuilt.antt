-- ===== src/Node/Rebuilt.antt =====
-- What a reset of internal/pool/manager.go has run on the host of a Node of internal/node.
use droidpool.Prelude.{ℕ, ◌≡◌, true, List, ◌∷◌, Option, Text}
use droidpool.Exec.{ok, is_ok}
use droidpool.Exec.Ends.{Ends}
use droidpool.Pool.Identity.{Identity}
use droidpool.Pool.Location.{Floats}
use droidpool.Pool.Lease.{Device}
use droidpool.Manager.World.{
  Manager, DriverCall, creates, removes, wipes, waits_boot, effective_identity, boot_timeout,
}
use droidpool.Manager.Index.{port}
use droidpool.Node.Host.{Host, Node, Log, docker_run}
use droidpool.Node.Names.{container_name}
use droidpool.Node.Containers.{wipe_command, wipe_dir, says_one}
use droidpool.Node.Waits.{probe}
use droidpool.Node.Props.{TarEntry, IdentityArgs, identity_args}
use droidpool.Node.Driver.{create_command, commands}
use droidpool.Node.Extends.{Extends}

-- The newest command is this one, and it succeeded.
abbrev pub Ran : Host → List Text → Log → Type 0
Ran h args log = (before : Log) × (log ≡ docker_run args ∷ before) × (is_ok (h.output log) ≡ true)

-- The newest command asked the device whether it has booted, and it said so.
abbrev pub SaidBooted : Host → Text → Log → Type 0
SaidBooted h name log =
    (before : Log) × (log ≡ probe name ∷ before) × (says_one (h.output log) ≡ true)

module _ (h : Host) (tar : Text → List TarEntry) (n : Node) where
  -- The arguments of `docker run` that a device's identity comes to were made on the way.
  abbrev pub CreateRan : Text → ℕ → Text → Option Identity → Log → Type 0
  CreateRan id port overlay ident log =
      (args : IdentityArgs) × (l l' : Log) × (identity_args h tar n id ident l ≡ (ok args, l'))
      × Ran h (create_command n id port overlay args) log

module _ (h : Host) (tar : Text → List TarEntry) (n : Node) (fl : Floats) (m : Manager) where
  -- The host's part of a rebuild that the driver's answers stand for: the device's data were wiped,
  -- its container was run, and it said that it has booted, each on top of what was run before.
  abbrev pub RanOnHost : Device → ℕ → List DriverCall → Type 0
  RanOnHost d i before =
      let removed = removes d.id ∷ before in
      let wiped = wipes d.id m.overlay_base ∷ removed in
      let created = creates d.id (port m i) m.overlay_base (effective_identity m d) ∷ wiped in
      let booted = waits_boot d.id (boot_timeout m) ∷ created in
      let log = commands n h tar fl in
      Ran h (wipe_command (wipe_dir n d.id m.overlay_base)) (log wiped)
      × CreateRan h tar n d.id (port m i) m.overlay_base (effective_identity m d) (log created)
      × Extends (log wiped) (log created)
      × SaidBooted h (container_name d.id) (log booted)
      × Extends (log created) (log booted)
