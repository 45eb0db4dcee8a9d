-- ===== src/Config/Valid.antt =====
-- What a configuration that `Load` of internal/config/config.go returns is known to satisfy.
use droidpool.Prelude.{
  ℕ, ◌+◌, ◌≤◌, ◌<◌, ◌≡◌, ◌≢◌, refl, ap, sym, ◌∙◌, inl, inr, Bool, true, false, List, [], ◌∷◌,
  Option, none, some, arith, All, any, is_empty, is_some, Text, text_eq, text_eq_iff, Option-cases,
  if◌then◌else◌,
}
use droidpool.Prelude.Int.{at_most, ℤ, pos, negsuc}
use droidpool.Pool.Location.{Floats, parse_location}
use droidpool.Config.{
  Config, NodeConfig, ConfigError, port_error, node_error, nodes_error, validated, load,
  default_identity, refuses_identity, apply_defaults, first_error, loaded, lacks_certificate,
  has_bad_url, with_trimmed_url, no_name, same_name, no_docker_host, no_adb_host, bad_node_identity,
  bad_node_location, no_token, no_certificate, bad_wall_url, no_nodes,
}

-- Between the first port, which is positive, and the last one there is a port for each device.
abbrev pub PortsFit : ℤ → ℤ → ℤ → Type 0
PortsFit lo hi n =
    (a b : ℕ) × (lo ≡ pos a) × (hi ≡ pos b) × (0 < a) × (a ≤ b) × (a + at_most n ≤ b + 1)

port_error-Fit : (lo hi n : ℤ) → port_error lo hi n ≡ none → PortsFit lo hi n
unfolding port_error
port_error-Fit (negsuc a) hi n h = cc
port_error-Fit (pos lo) (negsuc b) n h = cc
port_error-Fit (pos lo) (pos hi) (pos n) h =
    (lo, hi, refl, refl, ground arith, ground arith, ground arith)
port_error-Fit (pos lo) (pos hi) (negsuc n) h =
    (lo, hi, refl, refl, ground arith, ground arith, ground arith)

if-none :
    {A : Type 0} (x : A) {rest : Option A} (b : Bool)
    → (if b then some x else rest) ≡ none
    → (b ≡ false) × (rest ≡ none)
if-none x true h = cc
if-none x false h = (refl, h)

unless-none : {A : Type 0} (x : A) (b : Bool) → (if b then none else some x) ≡ none → b ≡ true
unless-none x true h = refl
unless-none x false h = cc

if-pass :
    {A B : Type 0} (a : A) (x : B) (b : Bool) {rest : A × Option B} {c : A}
    → (if b then (a, some x) else rest) ≡ (c, none)
    → (b ≡ false) × (rest ≡ (c, none))
if-pass a x true h = absurd (ground arith)
if-pass a x false h = (refl, h)

loaded-inl : (r : Config × Option ConfigError) (c : Config) → loaded r ≡ inl c → r ≡ (c, none)
loaded-inl (d, none) c h = ground arith
loaded-inl (d, some e) c h = absurd (ground arith)

first_error-none :
    (e : Option ConfigError) {rest : Option ConfigError}
    → first_error e rest ≡ none
    → (e ≡ none) × (rest ≡ none)
first_error-none none h = (refl, h)
first_error-none (some e) h = cc

-- No two nodes have one name.
abbrev pub Apart : List NodeConfig → Type 0
Apart [] = Unit
Apart (n ∷ ns) = All (λ m. m.name ≢ n.name) ns × Apart ns

All-new :
    (name : Text) (seen : List Text) (ns : List NodeConfig)
    → All (λ n. any (text_eq n.name) (name ∷ seen) ≡ false) ns
    → All (λ n. any (text_eq n.name) seen ≡ false) ns
All-new name seen [] h = tt
All-new name seen (n ∷ ns) h = (ground arith, All-new name seen ns h.1)

All-apart :
    (m : NodeConfig) (seen : List Text) (ns : List NodeConfig)
    → All (λ n. any (text_eq n.name) (m.name ∷ seen) ≡ false) ns
    → All (λ n. n.name ≢ m.name) ns
All-apart m seen [] h = tt
All-apart m seen (n ∷ ns) h =
    (λ same. ground (arith, text_eq_iff n.name m.name), All-apart m seen ns h.1)

module _ (fl : Floats) where
  abbrev pub IsReady : NodeConfig → Type 0
  IsReady n =
      (is_empty n.name ≡ false)
      × (is_empty n.docker_host ≡ false)
      × (is_empty n.adb_host ≡ false)
      × PortsFit n.port_lo n.port_hi n.max_devices
      × (refuses_identity (default_identity n) ≡ false)
      × (is_some (parse_location fl n.mock_location) ≡ true)

  node_error-IsReady :
      (seen : List Text) (n : NodeConfig)
      → node_error fl seen n ≡ none
      → IsReady n × (any (text_eq n.name) seen ≡ false)
  unfolding node_error
  node_error-IsReady seen n h =
      let (name, rest) = if-none no_name (is_empty n.name) h in
      let (new, rest) = if-none same_name (any (text_eq n.name) seen) rest in
      let (docker, rest) = if-none no_docker_host (is_empty n.docker_host) rest in
      let (adb, rest) = if-none no_adb_host (is_empty n.adb_host) rest in
      let (ports, rest) = first_error-none (port_error n.port_lo n.port_hi n.max_devices) rest in
      let (identity, rest) =
        if-none bad_node_identity (refuses_identity (default_identity n)) rest in
      (
        (
          name,
          docker,
          adb,
          port_error-Fit n.port_lo n.port_hi n.max_devices ports,
          identity,
          unless-none bad_node_location (is_some (parse_location fl n.mock_location)) rest,
        ),
        new,
      )

  -- The name is none of these.
  abbrev IsNew : List Text → NodeConfig → Type 0
  IsNew seen n = any (text_eq n.name) seen ≡ false

  nodes_error-IsReady :
      (seen : List Text) (ns : List NodeConfig)
      → nodes_error fl seen ns ≡ none
      → All IsReady ns × All (IsNew seen) ns × Apart ns
  unfolding nodes_error
  nodes_error-IsReady seen [] h = (tt, tt, tt)
  nodes_error-IsReady seen (n ∷ ns) h =
      let (here, later) = first_error-none (node_error fl seen n) h in
      let (ready, new) = node_error-IsReady seen n here in
      let (all_ready, all_new, apart) = nodes_error-IsReady (n.name ∷ seen) ns later in
      (
        (ready, all_ready),
        (new, All-new n.name seen ns all_new),
        (All-apart n seen ns all_new, apart),
      )

  validated-none :
      (c c' : Config)
      → validated fl c ≡ (c', none)
      → (is_empty c'.token ≡ false)
        × (is_empty c'.nodes ≡ false)
        × (nodes_error fl [] c'.nodes ≡ none)
  unfolding validated with_trimmed_url
  validated-none c c' h =
      let (token, rest) = if-pass c no_token (is_empty c.token) h in
      let (certificate, rest) = if-pass c no_certificate (lacks_certificate c) rest in
      let (url, rest) =
        if-pass c bad_wall_url (has_bad_url c.tls.wall_url)
          {rest = (
            with_trimmed_url c,
            (if is_empty c.nodes then some no_nodes else nodes_error fl [] c.nodes),
          )}
          rest in
      let same = ap (λ (r : Config × Option ConfigError). r.0) rest in
      let error = ap (λ (r : Config × Option ConfigError). r.1) rest in
      let (some_nodes, checked) = if-none no_nodes (is_empty c.nodes) error in
      (
        ap (λ (r : Config). is_empty r.token) (sym same) ∙ token,
        ap (λ (r : Config). is_empty r.nodes) (sym same) ∙ some_nodes,
        ap (λ (r : Config). nodes_error fl [] r.nodes) (sym same) ∙ checked,
      )

  -- A configuration that Load returns has a token and nodes; the names of the nodes are all
  -- different; and each node has a name, a docker host, an adb host, a positive first port with a
  -- port for each device up to the last, an identity that is absent or valid, and a location that
  -- parses.
  pub load-IsReady :
      (file : Text) (expand_env : Text → Text) (unmarshal : Text → Option Config) (c : Config)
      → load fl (some file) expand_env unmarshal ≡ inl c
      → (is_empty c.token ≡ false)
        × (is_empty c.nodes ≡ false)
        × All IsReady c.nodes
        × Apart c.nodes
  unfolding load
  load-IsReady file expand_env unmarshal c h = elim (Option-cases (unmarshal (expand_env file))) [
    | inl e ↦ absurd (ground (arith, e))
    | inr (raw, e) ↦
        let (token, some_nodes, none_bad) =
          validated-none (apply_defaults raw) c
            (loaded-inl (validated fl (apply_defaults raw)) c (rw e at h)) in
        let (ready, new, apart) = nodes_error-IsReady [] c.nodes none_bad in
        (token, some_nodes, ready, apart)
  ]
