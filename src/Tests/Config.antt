-- ===== src/Tests/Config.antt =====
-- A configuration with one node that Load accepts, and the daemon on it.
use droidpool.Prelude.{
  List, ◌+◌, ◌≤◌, ◌≡◌, refl, ◌↔◌, inl, false, [], ◌∷◌, ◌++◌, Option, none, some, arith, All,
  is_empty, Text, codes, text_eq,
}
use droidpool.Exec.{Exec}
use droidpool.Prelude.Int.{at_most, pos}
use droidpool.Prelude.Decimal.{decimal}
use droidpool.Prelude.Strings.{trim_right_by}
use droidpool.Pool.Identity.{Identity, is_zero_identity}
use droidpool.Pool.Location.{parse_location}
use droidpool.Manager.Index.{device_id, port, strip_prefix}
use droidpool.Node.Host.{Log}
use droidpool.Node.Names.{container_name, sidecar_device_id}
use droidpool.Node.Reconciled.{Spares, listing}
use droidpool.Config.{
  Config, NodeConfig, load, validated, nodes_error, node_error, port_error, default_identity,
  apply_defaults, with_node_defaults, with_trimmed_url,
}
use droidpool.Config.Valid.{IsReady, Apart, load-IsReady}
use droidpool.Daemon.{
  manager_of, reconcile_node, golden_port, reconcile_node-Spares, port-IsInRange,
}
use droidpool.Tests.Node.{host, no_floats}

abbrev no_identity : Identity
no_identity = record {
  model = [];
  brand = [];
  manufacturer = [];
  device = [];
  name = [];
  serial = [];
}

abbrev pub given_node : NodeConfig
given_node = record {
  name = codes "n";
  docker_host = codes "ssh://u@h";
  adb_host = codes "h";
  port_lo = pos 5001;
  port_hi = pos 5002;
  max_devices = pos 2;
  image = codes "img";
  data_root = codes "/d";
  boot_args = codes "a";
  egress = false;
  egress_dns = [];
  camera_video_base = pos 0;
  identity = no_identity;
  mock_location = [];
}

abbrev given : Config
given = record {
  listen = [];
  token = codes "t";
  db_path = [];
  default_ttl = pos 0;
  max_ttl = pos 0;
  idle_timeout = pos 0;
  max_lifetime = pos 0;
  reap_interval = pos 0;
  warm_pool = pos 0;
  min_avail_mib = pos 0;
  edge_host = [];
  edge_port = pos 0;
  tls = record { listen = []; cert = []; key = []; wall_url = [] };
  nodes = given_node ∷ [];
}

abbrev decode : Text → Option Config
decode s = some given

abbrev as_is : Text → Text
as_is s = s

abbrev in_use : Config
in_use = with_trimmed_url (apply_defaults given)

loads : load no_floats (some []) as_is decode ≡ inl in_use
unfolding load validated nodes_error node_error port_error default_identity apply_defaults
    with_node_defaults with_trimmed_url parse_location is_zero_identity trim_right_by text_eq
loads = refl

load-IsReady_example :
    (is_empty in_use.token ≡ false)
    × (is_empty in_use.nodes ≡ false)
    × All (IsReady no_floats) in_use.nodes
    × Apart in_use.nodes
load-IsReady_example = load-IsReady no_floats [] as_is decode in_use loads

is_own : sidecar_device_id (container_name (device_id (manager_of given_node) 1)) ≡ none
unfolding sidecar_device_id container_name device_id manager_of strip_prefix decimal
is_own = refl

two_devices : 1 ≤ at_most (manager_of given_node).max_devices
unfolding manager_of
two_devices = omega arith

reconcile_node-Spares_example :
    (run : Exec Log (List Text)) × (reconcile_node host given_node ≡ some run)
    × (new : Log) × ((run []).1 ≡ new ++ listing ∷ [])
    × All (Spares (device_id (manager_of given_node) 1)) new
reconcile_node-Spares_example =
    reconcile_node-Spares host given_node 1 [] (omega arith) two_devices is_own

is_ready : IsReady no_floats given_node
unfolding default_identity is_zero_identity parse_location
is_ready =
    (refl, refl, refl, (5001, 5002, refl, refl, omega arith, omega arith, omega arith), refl, refl)

port-IsInRange_example :
    (at_most given_node.port_lo ≤ port (manager_of given_node) 1)
    × (port (manager_of given_node) 1 ≤ golden_port given_node)
    × ((port (manager_of given_node) 1 ≡ golden_port given_node)
        ↔ (at_most given_node.port_lo + 1 ≡ at_most given_node.port_hi + 1))
port-IsInRange_example = port-IsInRange no_floats given_node 1 is_ready (omega arith) two_devices
