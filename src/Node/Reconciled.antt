-- ===== src/Node/Reconciled.antt =====
-- Which containers `Reconcile` of internal/node/node.go leaves alone.
use droidpool.Prelude.{
  ℕ, ◌≡◌, ◌≢◌, refl, ap, inl, inr, Bool, true, false, List, [], ◌∷◌, ◌++◌, none, some, arith, All,
  any, not, ◌&&◌, is_empty, Text, codes,
}
use droidpool.Exec.{Result-cases}
use droidpool.Node.Host.{Host, Command, docker_run, Log, docker}
use droidpool.Node.Names.{container_name, tun_name, relay_name, cam_feed_name, sidecar_device_id}
use droidpool.Node.Containers.{
  is_kept, takes_port, should_go, columns, remove_stale, reconcile_line, reconcile_lines, reconcile,
}
use droidpool.Prelude.Strings.{split, trim_space}
use droidpool.Exec.Keeps.{Keeps, Keeps-pure, keeps_rules}

abbrev pub removal : Text → Command
removal name = docker_run (codes "rm" ∷ codes "-f" ∷ name ∷ [])

abbrev pub listing : Command
listing =
    docker_run (codes "ps" ∷ codes "-a" ∷ codes "--format" ∷ codes "{{.Names}}\t{{.Ports}}" ∷ [])

-- Commands on top of `base`, each of which removes a container that is not kept.
pub data OnlyRemoves (keep : Text → Bool) (base : Log) : Log → Type 0 where
  nothing : OnlyRemoves keep base base
  one :
      {log : Log} (name : Text)
      → is_kept keep name ≡ false
      → OnlyRemoves keep base log
      → OnlyRemoves keep base (removal name ∷ log)

any-not_kept :
    (keep : Text → Bool) (name column : Text) (ports : List ℕ)
    → any (λ p. takes_port column p && not (is_kept keep name)) ports ≡ true
    → is_kept keep name ≡ false
any-not_kept keep name column [] e = cc
any-not_kept keep name column (p ∷ ports) e = ground (arith, any-not_kept keep name column ports)

not_kept :
    (keep : Text → Bool) (ports : List ℕ) (name column : Text)
    → should_go keep ports name column ≡ true
    → is_kept keep name ≡ false
unfolding should_go
not_kept keep ports name column e = ground (arith, any-not_kept keep name column ports)

module _ (h : Host) (keep : Text → Bool) (ports : List ℕ) (base : Log) where
  remove_stale-OnlyRemoves :
      (b : Bool) (name : Text)
      → (b ≡ true → is_kept keep name ≡ false)
      → Keeps (OnlyRemoves keep base) (remove_stale h b name)
  unfolding remove_stale docker
  remove_stale-OnlyRemoves true name spared = record { at = λ log o. one name (spared refl) o }
  remove_stale-OnlyRemoves false name spared = Keeps-pure []

  reconcile_line-OnlyRemoves :
      (line : Text) → Keeps (OnlyRemoves keep base) (reconcile_line h keep ports line)
  unfolding reconcile_line
  reconcile_line-OnlyRemoves line =
      let name = (columns (trim_space line)).0 in
      let column = (columns (trim_space line)).1 in
      remove_stale-OnlyRemoves (not (is_empty name) && should_go keep ports name column) name
        (λ e. ground (arith, not_kept keep ports name column))

  reconcile_lines-OnlyRemoves :
      (lines : List Text) → Keeps (OnlyRemoves keep base) (reconcile_lines h keep ports lines)
  unfolding reconcile_lines
  reconcile_lines-OnlyRemoves [] = Keeps-pure []
  reconcile_lines-OnlyRemoves (line ∷ lines) =
      search (keeps_rules, reconcile_line-OnlyRemoves line, reconcile_lines-OnlyRemoves lines)

tun_sidecar : (id : Text) → is_empty id ≡ false → sidecar_device_id (tun_name id) ≡ some id
unfolding sidecar_device_id tun_name
tun_sidecar id e = rw e

relay_sidecar : (id : Text) → is_empty id ≡ false → sidecar_device_id (relay_name id) ≡ some id
unfolding sidecar_device_id relay_name
relay_sidecar id e = rw e

cam_sidecar : (id : Text) → is_empty id ≡ false → sidecar_device_id (cam_feed_name id) ≡ some id
unfolding sidecar_device_id cam_feed_name
cam_sidecar id e = rw e

-- The command is no removal of the container, nor of the three that serve it.
abbrev pub Spares : Text → Command → Type 0
Spares id c =
    (c ≢ removal (container_name id))
    × (c ≢ removal (tun_name id))
    × (c ≢ removal (relay_name id))
    × (c ≢ removal (cam_feed_name id))

module _ (keep : Text → Bool) (id : Text) (stays : keep (container_name id) ≡ true)
    (named : is_empty id ≡ false) (own : sidecar_device_id (container_name id) ≡ none) where
  other_name :
      (name x : Text) → is_kept keep name ≡ false → is_kept keep x ≡ true → removal name ≢ removal x
  other_name name x gone here e = cc

  removal-Spares : (name : Text) → is_kept keep name ≡ false → Spares id (removal name)
  removal-Spares name gone = (
    other_name name (container_name id) gone (rw own stays),
    other_name name (tun_name id) gone (rw (tun_sidecar id named) stays),
    other_name name (relay_name id) gone (rw (relay_sidecar id named) stays),
    other_name name (cam_feed_name id) gone (rw (cam_sidecar id named) stays),
  )

  OnlyRemoves-Spares :
      (base : Log) {log : Log}
      → OnlyRemoves keep base log
      → (new : Log) × (log ≡ new ++ base) × All (Spares id) new
  OnlyRemoves-Spares base nothing = ([], refl, tt)
  OnlyRemoves-Spares base (one name gone o) =
      let (new, e, a) = OnlyRemoves-Spares base o in
      (removal name ∷ new, ap (λ l. removal name ∷ l) e, (removal-Spares name gone, a))

  -- What a reconcile adds to the log lists the containers first, and then spares a kept device: its
  -- own container, its relay and its camera feed are not removed.
  pub reconcile-Spares :
      (h : Host) (ports : List ℕ) (log : Log)
      → (new : Log) × ((reconcile h keep ports log).1 ≡ new ++ listing ∷ log) × All (Spares id) new
  unfolding reconcile docker
  reconcile-Spares h ports log = elim (Result-cases (h.output (listing ∷ log))) [
    | inl (out, e) ↦ rw e (
        OnlyRemoves-Spares (listing ∷ log) (
          (reconcile_lines-OnlyRemoves h keep ports (listing ∷ log) (split 10 out)).at
            (listing ∷ log) nothing))
    | inr (x, e) ↦ rw e ([], refl, tt)
  ]
