-- ===== src/Daemon.antt =====
-- cmd/droidpoold/main.go: how the daemon puts a node's driver and its manager together, and what it
-- reconciles when it starts. The rest of it starts servers and background work.
pub mod Start
pub mod Ports
use droidpool.Prelude.{
  ℕ, zero, suc, ◌+◌, ◌-◌, ◌≤◌, ◌<◌, ◌≡◌, refl, ap, ◌↔◌, inl, inr, Bool, true, false, ◌||◌, List, [],
  ◌∷◌, ◌++◌, arith, All, is_empty, Option, none, some, if◌then◌else◌, Text, codes, text_eq,
  text_eq_refl, Bool-cases, ◌==◌,
}
use droidpool.Prelude.Decimal.{decimal}
use droidpool.Prelude.Int.{ℤ, pos, negsuc, at_most, is_negative}
use droidpool.Exec.{Exec}
use droidpool.Pool.Location.{Floats}
use droidpool.Manager.World.{Manager}
use droidpool.Manager.Index.{device_id, port}
use droidpool.Node.Host.{Host, Node, Log}
use droidpool.Node.Names.{container_name, sidecar_device_id}
use droidpool.Node.Containers.{reconcile}
use droidpool.Node.Reconciled.{Spares, listing, reconcile-Spares}
use droidpool.Config.{NodeConfig, default_identity}
use droidpool.Config.Valid.{IsReady}

unfoldable pub node_of : NodeConfig → Node
node_of c = record {
  name = c.name;
  docker_host = c.docker_host;
  image = c.image;
  data_root = c.data_root;
  boot_args = c.boot_args;
  egress = c.egress;
  egress_dns = c.egress_dns;
  camera_video_base = c.camera_video_base;
  default_identity = default_identity c;
  cam_settle = 0;
}

-- A validated configuration has no negative port.
unfoldable pub manager_of : NodeConfig → Manager
manager_of c = record {
  node_name = c.name;
  adb_host = c.adb_host;
  max_devices = c.max_devices;
  port_base = at_most c.port_lo - 1;
  overlay_base = c.data_root ++ codes "/base";
  boot_limit = 0;
  default_identity = default_identity c;
  default_location = c.mock_location;
}

-- for i := 1; i <= nc.MaxDevices; i++, from `i` on
unfoldable pub device_ports : Manager → ℕ → ℕ → List ℕ
unfolding port
device_ports m i zero = []
device_ports m i (suc k) = port m i ∷ device_ports m (i + 1) k

unfoldable pub is_among : Manager → ℕ → ℕ → Text → Bool
unfolding text_eq device_id container_name
is_among m i zero name = false
is_among m i (suc k) name =
    text_eq name (container_name (device_id m i)) || is_among m (i + 1) k name

abbrev pub golden_port : NodeConfig → ℕ
golden_port c = at_most c.port_hi

-- `none` is the panic of `make` on a negative capacity: `validate` lets a negative max_devices pass.
unfoldable pub reconcile_node : Host → NodeConfig → Option (Exec Log (List Text))
unfolding device_ports is_among reconcile manager_of
reconcile_node h c =
    let m = manager_of c in
    let n = at_most m.max_devices in
    if is_negative m.max_devices
    then none
    else some (reconcile h (is_among m 1 n) (device_ports m 1 n))

has_none_negative : (z : ℤ) (i : ℕ) → 0 < i → i ≤ at_most z → is_negative z ≡ false
has_none_negative (pos n) i low high = refl
has_none_negative (negsuc n) i low high = absurd (omega arith)

or_true : (a : Bool) {b : Bool} → b ≡ true → (a || b) ≡ true
or_true true h = refl
or_true false h = h

is_among-device :
    (m : Manager) (i k j : ℕ)
    → i ≤ j
    → j < i + k
    → is_among m i k (container_name (device_id m j)) ≡ true
unfolding is_among
is_among-device m i zero j low high = absurd (omega arith)
is_among-device m i (suc k) j low high = elim (Bool-cases (i == j)) [
  | inl here ↦
      let same : i ≡ j = ground (arith, here) in
      rw same (rw (text_eq_refl (container_name (device_id m j))) refl)
  | inr other ↦
      let later = is_among-device m (i + 1) k j (ground (arith, other)) (ground (arith, other)) in
      or_true _ later
]

device_id-named : (m : Manager) (i : ℕ) → is_empty (device_id m i) ≡ false
unfolding device_id
device_id-named m i = named m.node_name (decimal i)
  where
    named : (s t : Text) → is_empty (s ++ b'-' ∷ t) ≡ false
    named [] t = refl
    named (c ∷ s) t = refl

-- On a node with a positive max_devices, and whatever the host answers, the reconciliation at the
-- start of the daemon only lists the containers and then runs commands none of which removes the
-- container of a device numbered 1 to max_devices, nor its tun, egress or camera container, where
-- the device's own container name does not read as that of a sidecar.
pub reconcile_node-Spares :
    (h : Host) (c : NodeConfig) (i : ℕ) (log : Log)
    → 0 < i
    → i ≤ at_most (manager_of c).max_devices
    → sidecar_device_id (container_name (device_id (manager_of c) i)) ≡ none
    → (run : Exec Log (List Text)) × (reconcile_node h c ≡ some run)
      × (new : Log) × ((run log).1 ≡ new ++ listing ∷ log)
      × All (Spares (device_id (manager_of c) i)) new
unfolding reconcile_node
reconcile_node-Spares h c i log low high own =
    let m = manager_of c in
    let n = at_most m.max_devices in
    let (new, ran, spared) =
      reconcile-Spares (is_among m 1 n) (device_id m i)
        (is_among-device m 1 n i (omega arith) (omega arith)) (device_id-named m i) own h
        (device_ports m 1 n) log in
    (
      reconcile h (is_among m 1 n) (device_ports m 1 n),
      rw (has_none_negative m.max_devices i low high) refl,
      new,
      ran,
      spared,
    )

-- On a node of a valid configuration, the port of each device numbered 1 to max_devices is in the
-- node's range; it is the port that the golden container publishes exactly if the first port and
-- the device's number make the last port and one.
pub port-IsInRange :
    (fl : Floats) (c : NodeConfig) (i : ℕ)
    → IsReady fl c
    → 0 < i
    → i ≤ at_most (manager_of c).max_devices
    → (at_most c.port_lo ≤ port (manager_of c) i)
      × (port (manager_of c) i ≤ golden_port c)
      × ((port (manager_of c) i ≡ golden_port c) ↔ (at_most c.port_lo + i ≡ at_most c.port_hi + 1))
unfolding port manager_of
port-IsInRange fl c i (name, docker, adb, (a, b, lo, hi, pos_a, le, fit), identity, location) low
      high =
    let e = ap at_most lo in
    let f = ap at_most hi in (omega arith, omega arith, (λ h. omega arith, λ h. omega arith))
