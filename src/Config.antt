-- ===== src/Config.antt =====
-- internal/config/config.go: the configuration of the daemon, its defaults and its validation. Reading
-- the file, os.ExpandEnv and the TOML decoder are parameters.
pub mod Valid
pub mod Target
use droidpool.Prelude.{
  ℕ, zero, suc, ◌+◌, ◌-◌, ◌*◌, Bool, true, false, not, ◌&&◌, ◌||◌, List, [], ◌∷◌, Option, none,
  some, ◌⊎◌, inl, inr, map, any, if◌then◌else◌, ltb, ◌==◌, is_empty, is_some, Text, codes, text_eq,
}
use droidpool.Prelude.Int.{ℤ, pos, negsuc}
use droidpool.Prelude.Strings.{trim_right_by}
use droidpool.Pool.Time.{second, minute}
use droidpool.Pool.Identity.{Identity, normalized, is_zero_identity, validate, or_else}
use droidpool.Pool.Location.{Floats, parse_location}
use droidpool.Manager.Index.{strip_prefix}
use droidpool.Api.Urls.{has_prefix, trim_prefix}

pub record Tls : Type 0 where
  pub listen : Text
  pub cert : Text
  pub key : Text
  pub wall_url : Text

pub record NodeConfig : Type 0 where
  pub name : Text
  pub docker_host : Text
  pub adb_host : Text
  pub port_lo : ℤ
  pub port_hi : ℤ
  pub max_devices : ℤ
  pub image : Text
  pub data_root : Text
  pub boot_args : Text
  pub egress : Bool
  pub egress_dns : Text
  pub camera_video_base : ℤ
  pub identity : Identity
  pub mock_location : Text

-- Durations are in nanoseconds.
pub record Config : Type 0 where
  pub listen : Text
  pub token : Text
  pub db_path : Text
  pub default_ttl : ℤ
  pub max_ttl : ℤ
  pub idle_timeout : ℤ
  pub max_lifetime : ℤ
  pub reap_interval : ℤ
  pub warm_pool : ℤ
  pub min_avail_mib : ℤ
  pub edge_host : Text
  pub edge_port : ℤ
  pub tls : Tls
  pub nodes : List NodeConfig

-- if v == 0 { v = d }
abbrev pub or_int : ℤ → ℤ → ℤ
or_int (pos zero) d = d
or_int (pos (suc n)) d = pos (suc n)
or_int (negsuc n) d = negsuc n

-- The rest is the text behind the last @ so far, and the second text is what of it is not yet
-- looked at.
unfoldable pub skip_users : Text → Text → Text
skip_users rest [] = rest
skip_users rest (c ∷ s) =
    let found = skip_users s s in
    let other = skip_users rest s in if c == b'@' then found else other

unfoldable pub up_to_port : Text → Text
up_to_port [] = []
up_to_port (c ∷ s) = let rest = up_to_port s in if c == b':' || c == b'/' then [] else c ∷ rest

-- `len(s) <= len(p)` leaves nothing behind the prefix either.
unfoldable pub host_from_docker_host : Text → Text
unfolding skip_users up_to_port strip_prefix
host_from_docker_host s =
    if has_prefix (codes "ssh://") s
    then (let rest = trim_prefix (codes "ssh://") s in up_to_port (skip_users rest rest))
    else []

abbrev pub default_image : Text
default_image = codes "redroid/redroid:14.0.0_64only-latest"

abbrev pub default_boot_args : Text
default_boot_args =
    codes
      "androidboot.use_memfd=true androidboot.use_redroid_overlayfs=1 androidboot.redroid_width=1366 androidboot.redroid_height=768 androidboot.redroid_dpi=160 androidboot.redroid_gpu_mode=guest"

unfoldable pub with_node_defaults : NodeConfig → NodeConfig
unfolding host_from_docker_host
with_node_defaults n = record n {
  max_devices = or_int n.max_devices (pos 8);
  image = or_else n.image default_image;
  boot_args = or_else n.boot_args default_boot_args;
  data_root = or_else n.data_root (codes "/data/droidpool");
  adb_host = or_else n.adb_host (host_from_docker_host n.docker_host);
}

unfoldable pub apply_defaults : Config → Config
unfolding with_node_defaults
apply_defaults c = record c {
  listen = or_else c.listen (codes "0.0.0.0:8600");
  db_path = or_else c.db_path (codes "droidpool.db");
  default_ttl = or_int c.default_ttl (pos (240 * minute));
  max_ttl = or_int c.max_ttl (pos (1440 * minute));
  idle_timeout = or_int c.idle_timeout (pos (30 * minute));
  max_lifetime = or_int c.max_lifetime (pos (1440 * minute));
  reap_interval = or_int c.reap_interval (pos minute);
  min_avail_mib = or_int c.min_avail_mib (pos 2048);
  edge_port = or_int c.edge_port (pos 8090);
  nodes = map with_node_defaults c.nodes;
}

pub data ConfigError : Type 0 where
  unreadable no_token no_certificate bad_wall_url no_nodes : ConfigError
  no_name same_name no_docker_host no_adb_host : ConfigError
  bad_port_range ports_too_few bad_node_identity bad_node_location : ConfigError

unfoldable pub default_identity : NodeConfig → Option Identity
unfolding is_zero_identity normalized
default_identity n = if is_zero_identity n.identity then none else some (normalized n.identity)

abbrev pub fewer : ℕ → ℤ → Bool
fewer k (pos n) = ltb k n
fewer k (negsuc n) = false

-- lo <= 0 || hi < lo, and hi-lo+1 < max
unfoldable pub port_error : ℤ → ℤ → ℤ → Option ConfigError
port_error (negsuc a) hi n = some bad_port_range
port_error (pos lo) (negsuc b) n = some bad_port_range
port_error (pos lo) (pos hi) n =
    if lo == 0 || ltb hi lo
    then some bad_port_range
    else if fewer (hi - lo + 1) n
    then some ports_too_few
    else none

abbrev pub refuses_identity : Option Identity → Bool
refuses_identity none = false
refuses_identity (some i) = is_some (validate i)

abbrev pub first_error : Option ConfigError → Option ConfigError → Option ConfigError
first_error (some e) next = some e
first_error none next = next

-- TLS is enabled, and one of its files is not given.
abbrev pub lacks_certificate : Config → Bool
lacks_certificate c = not (is_empty c.tls.listen) && (is_empty c.tls.cert || is_empty c.tls.key)

abbrev pub has_bad_url : Text → Bool
has_bad_url u = not (is_empty u) && not (has_prefix (codes "https://") u)

unfoldable pub with_trimmed_url : Config → Config
unfolding trim_right_by
with_trimmed_url c = record c {
  tls = record c.tls { wall_url = trim_right_by (λ b. b == b'/') c.tls.wall_url };
}

abbrev pub loaded : Config × Option ConfigError → Config ⊎ ConfigError
loaded (c, none) = inl c
loaded (c, some e) = inr e

module _ (fl : Floats) where
  unfoldable pub node_error : List Text → NodeConfig → Option ConfigError
  unfolding default_identity port_error validate parse_location
  node_error seen n =
      if is_empty n.name
      then some no_name
      else if any (text_eq n.name) seen
      then some same_name
      else if is_empty n.docker_host
      then some no_docker_host
      else if is_empty n.adb_host
      then some no_adb_host
      else first_error (port_error n.port_lo n.port_hi n.max_devices) (
          if refuses_identity (default_identity n)
          then some bad_node_identity
          else if is_some (parse_location fl n.mock_location)
          then none
          else some bad_node_location)

  unfoldable pub nodes_error : List Text → List NodeConfig → Option ConfigError
  unfolding node_error
  nodes_error seen [] = none
  nodes_error seen (n ∷ ns) = first_error (node_error seen n) (nodes_error (n.name ∷ seen) ns)

  -- The configuration with its wall_url trimmed, or the error.
  unfoldable pub validated : Config → Config × Option ConfigError
  unfolding nodes_error with_trimmed_url strip_prefix
  validated c =
      if is_empty c.token
      then (c, some no_token)
      else if lacks_certificate c
      then (c, some no_certificate)
      else if has_bad_url c.tls.wall_url
      then (c, some bad_wall_url)
      else (
        with_trimmed_url c,
        (if is_empty c.nodes then some no_nodes else nodes_error [] c.nodes),
      )

  abbrev decoded : Option Config → Config ⊎ ConfigError
  decoded none = inr unreadable
  decoded (some c) = loaded (validated (apply_defaults c))

  -- What os.ReadFile and toml.Unmarshal fail on is unreadable.
  unfoldable pub load : Option Text → (Text → Text) → (Text → Option Config) → Config ⊎ ConfigError
  unfolding validated apply_defaults
  load none expand_env unmarshal = inr unreadable
  load (some file) expand_env unmarshal = decoded (unmarshal (expand_env file))
