-- ===== src/Node/Egress.antt =====
-- internal/node/egress.go: the relay and the tun sidecar through which a device reaches the internet.
use droidpool.Prelude.{ℕ, List, [], ◌∷◌, ◌++◌, if◌then◌else◌, is_empty, Text, codes}
use droidpool.Prelude.Decimal.{decimal}
use droidpool.Prelude.Strings.{trim_space}
use droidpool.Exec.{Exec, pure, raise, ◌>>=◌, ◌>>◌, no_gateway}
use droidpool.Node.Host.{Host, Node, Log, docker, do_docker, try_docker}
use droidpool.Node.Names.{relay_name, tun_name}

abbrev pub egress_network : Text
egress_network = codes "droidpool-egress"

abbrev pub egress_fwmark : Text
egress_fwmark = codes "0x22b"

abbrev pub egress_table : Text
egress_table = codes "555"

abbrev pub lan_routes : List Text
lan_routes =
    codes "10.0.0.0/8"
    ∷ codes "172.16.0.0/12"
    ∷ codes "192.168.0.0/16"
    ∷ codes "169.254.0.0/16"
    ∷ []

abbrev pub route_command : Text → Text → Text → List Text
route_command id gateway cidr =
    codes "exec"
    ∷ tun_name id
    ∷ codes "ip"
    ∷ codes "route"
    ∷ codes "replace"
    ∷ cidr
    ∷ codes "via"
    ∷ gateway
    ∷ codes "dev"
    ∷ codes "eth0"
    ∷ codes "table"
    ∷ egress_table
    ∷ []

-- What carries the mark of the proxy is looked up in the main table.
abbrev pub own_rule : Text → List Text
own_rule id =
    codes "exec"
    ∷ tun_name id
    ∷ codes "ip"
    ∷ codes "rule"
    ∷ codes "add"
    ∷ codes "pref"
    ∷ codes "9000"
    ∷ codes "fwmark"
    ∷ egress_fwmark
    ∷ codes "lookup"
    ∷ codes "main"
    ∷ []

abbrev pub tunnel_rule : Text → List Text
tunnel_rule id =
    codes "exec"
    ∷ tun_name id
    ∷ codes "ip"
    ∷ codes "rule"
    ∷ codes "add"
    ∷ codes "pref"
    ∷ codes "9001"
    ∷ codes "not"
    ∷ codes "fwmark"
    ∷ egress_fwmark
    ∷ codes "lookup"
    ∷ egress_table
    ∷ []

abbrev pub relay_command : Text → Text → List Text
relay_command id proxy =
    (codes "run"
      ∷ codes "-d"
      ∷ codes "--name"
      ∷ relay_name id
      ∷ codes "--network"
      ∷ egress_network
      ∷ codes "gogost/gost"
      ∷ codes "-L"
      ∷ codes "socks5://:1080?udp=true"
      ∷ [])
    ++ (if is_empty proxy then [] else codes "-F" ∷ proxy ∷ [])

abbrev pub publish_port : ℕ → List Text
publish_port port = codes "-p" ∷ (decimal port ++ codes ":5555") ∷ []

abbrev pub tun_command : Text → ℕ → Text → List Text
tun_command id port dns =
    (codes "run"
      ∷ codes "-d"
      ∷ codes "--name"
      ∷ tun_name id
      ∷ codes "--network"
      ∷ egress_network
      ∷ codes "--cap-add"
      ∷ codes "NET_ADMIN"
      ∷ codes "--device"
      ∷ codes "/dev/net/tun"
      ∷ codes "-e"
      ∷ (codes "PROXY=socks5://" ++ (relay_name id ++ codes ":1080"))
      ∷ codes "-e"
      ∷ codes "MTU=1500"
      ∷ [])
    ++ (publish_port port
        ++ ((if is_empty dns then [] else codes "--dns" ∷ dns ∷ [])
            ++ codes "xjasonlyu/tun2socks" ∷ []))

module _ (h : Host) where
  abbrev gateway_of : Text → Exec Log Text
  gateway_of gw = if is_empty gw then raise no_gateway else pure gw

  unfoldable pub ensure_egress_network : Exec Log Text
  unfolding trim_space
  ensure_egress_network = do
    try_docker h (codes "network" ∷ codes "create" ∷ egress_network ∷ [])
    out ← docker h (
        codes "network"
        ∷ codes "inspect"
        ∷ egress_network
        ∷ codes "-f"
        ∷ codes "{{(index .IPAM.Config 0).Gateway}}"
        ∷ [])
    gateway_of (trim_space out)

  unfoldable pub start_relay : Text → Text → Exec Log (Unit {0})
  start_relay id proxy = do
    try_docker h (codes "rm" ∷ codes "-f" ∷ relay_name id ∷ [])
    do_docker h (relay_command id proxy)

  unfoldable pub start_tun : Text → ℕ → Text → Exec Log (Unit {0})
  start_tun id port dns = do
    try_docker h (codes "rm" ∷ codes "-f" ∷ tun_name id ∷ [])
    do_docker h (tun_command id port dns)

  unfoldable pub add_routes : Text → Text → List Text → Exec Log (Unit {0})
  add_routes id gateway [] = pure tt
  add_routes id gateway (cidr ∷ cidrs) = do
    do_docker h (route_command id gateway cidr)
    add_routes id gateway cidrs

  unfoldable pub apply_egress_routes : Text → Text → Exec Log (Unit {0})
  unfolding add_routes
  apply_egress_routes id gateway = do
    add_routes id gateway lan_routes
    do_docker h (own_rule id)
    do_docker h (tunnel_rule id)

  unfoldable pub start_egress : Node → Text → ℕ → Exec Log (Unit {0})
  unfolding ensure_egress_network start_relay start_tun
  start_egress n id port = do
    gateway ← ensure_egress_network
    start_relay id []
    start_tun id port n.egress_dns

  unfoldable pub finish_egress : Node → Text → Exec Log (Unit {0})
  unfolding ensure_egress_network apply_egress_routes
  finish_egress n id =
      if n.egress
      then (do gateway ← ensure_egress_network; apply_egress_routes id gateway)
      else pure tt

  unfoldable pub set_egress : Text → Text → Exec Log (Unit {0})
  unfolding ensure_egress_network start_relay
  set_egress id proxy = do gateway ← ensure_egress_network; start_relay id proxy

  unfoldable pub remove_egress : Text → Exec Log (Unit {0})
  remove_egress id = do
    try_docker h (codes "rm" ∷ codes "-f" ∷ tun_name id ∷ [])
    try_docker h (codes "rm" ∷ codes "-f" ∷ relay_name id ∷ [])
