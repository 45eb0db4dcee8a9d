-- ===== src/Node/Containers.antt =====
-- internal/node/node.go: waiting for a boot, listing the containers and removing the stale ones, and
-- wiping a device's data.
use droidpool.Prelude.{
  ℕ, zero, suc, ◌+◌, ◌*◌, ◌/◌, Bool, true, false, not, ◌&&◌, ◌||◌, List, [], ◌∷◌, ◌++◌, Option,
  none, some, if◌then◌else◌, ltb, is_empty, is_some, any, select, map, Text, codes, text_eq,
}
use droidpool.Prelude.Decimal.{decimal}
use droidpool.Prelude.Strings.{split, split_by, trim_space}
use droidpool.Exec.{
  Result, ok, err, Exec, pure, raise, attempt, ◌>>=◌, ◌>>◌, is_ok, timed_out, diverged,
}
use droidpool.Pool.Time.{second}
use droidpool.Manager.Index.{strip_prefix}
use droidpool.Api.Urls.{has_prefix, cut}
use droidpool.Node.Host.{Host, Node, Log, docker, do_docker, now, sleep}
use droidpool.Node.Names.{container_name, sidecar_device_id, golden_name}

-- strings.Contains, of a text that is not empty
abbrev pub contains : Text → Text → Bool
contains s p = is_some (cut p s)

-- err == nil && strings.TrimSpace(out) == "1"
abbrev pub says_one : Result Text → Bool
says_one (ok out) = text_eq (trim_space out) (codes "1")
says_one (err e) = false

abbrev pub is_device_line : Text → Bool
is_device_line line = not (is_some (sidecar_device_id line)) && has_prefix (codes "droidpool-") line

-- Whether the device stays that this container is, or serves.
abbrev pub kept_as : (Text → Bool) → Text → Option Text → Bool
kept_as keep name none = keep name
kept_as keep name (some id) = keep (container_name id)

abbrev pub is_kept : (Text → Bool) → Text → Bool
is_kept keep name = kept_as keep name (sidecar_device_id name)

abbrev pub takes_port : Text → ℕ → Bool
takes_port column p = contains column (b':' ∷ (decimal p ++ codes "->"))

unfoldable pub should_go : (Text → Bool) → List ℕ → Text → Text → Bool
unfolding sidecar_device_id cut strip_prefix
should_go keep ports name column =
    (has_prefix (codes "droidpool-") name
      && not (is_kept keep name)
      && not (text_eq name golden_name))
    || any (λ p. takes_port column p && not (is_kept keep name)) ports

abbrev name_and_ports : Text → Option (Text × Text) → Text × Text
name_and_ports line none = (line, [])
name_and_ports line (some p) = p

-- strings.SplitN(line, "\t", 2)
unfoldable pub columns : Text → Text × Text
unfolding cut
columns line = name_and_ports line (cut (9 ∷ []) line)

abbrev pub wipe_script : Text
wipe_script = codes "rm -rf /wipe/* /wipe/.[!.]* 2>/dev/null; true"

abbrev pub wipe_command : Text → List Text
wipe_command dir =
    codes "run"
    ∷ codes "--rm"
    ∷ codes "-v"
    ∷ (dir ++ codes ":/wipe")
    ∷ codes "busybox:stable"
    ∷ codes "sh"
    ∷ codes "-c"
    ∷ wipe_script
    ∷ []

abbrev pub wipe_dir : Node → Text → Text → Text
wipe_dir n id overlay =
    if is_empty overlay
    then n.data_root ++ (codes "/data/" ++ id)
    else n.data_root ++ (codes "/diff/" ++ id)

module _ (h : Host) where
  -- The fuel is the number of rounds.
  unfoldable pub boot_rounds : Text → ℕ → ℕ → Exec Log (Unit {0})
  boot_rounds name deadline zero = raise diverged
  boot_rounds name deadline (suc f) = do
    r ← attempt (docker h (codes "exec" ∷ name ∷ codes "getprop" ∷ codes "sys.boot_completed" ∷ []))
    if says_one r then pure tt else (do
      t ← now h
      if ltb deadline t
          then raise timed_out
          else sleep h (2 * second) >> boot_rounds name deadline f)

  unfoldable pub wait_boot_container : Text → ℕ → Exec Log (Unit {0})
  wait_boot_container name timeout log =
      boot_rounds name (h.clock log + timeout) (timeout / (2 * second) + 2) log

  unfoldable pub wait_boot : Text → ℕ → Exec Log (Unit {0})
  unfolding wait_boot_container
  wait_boot id timeout = wait_boot_container (container_name id) timeout

  unfoldable pub running : Exec Log (List Text)
  unfolding strip_prefix split_by trim_space
  running = do
    out ← docker h (codes "ps" ∷ codes "--format" ∷ codes "{{.Names}}" ∷ [])
    pure (select is_device_line (map trim_space (split 10 out)))

  -- The set is a test.
  unfoldable pub running_set : Exec Log (Text → Bool)
  unfolding running
  running_set = do names ← running; pure (λ nm. any (text_eq nm) names)

  -- The removal of one container, and its name if that succeeded.
  unfoldable pub remove_stale : Bool → Text → Exec Log (List Text)
  remove_stale true name = do
    r ← attempt (docker h (codes "rm" ∷ codes "-f" ∷ name ∷ []))
    pure (if is_ok r then name ∷ [] else [])
  remove_stale false name = pure []

  unfoldable pub reconcile_line : (Text → Bool) → List ℕ → Text → Exec Log (List Text)
  unfolding columns trim_space should_go remove_stale
  reconcile_line keep ports line =
      let (name, column) = columns (trim_space line) in
      remove_stale (not (is_empty name) && should_go keep ports name column) name

  unfoldable pub reconcile_lines : (Text → Bool) → List ℕ → List Text → Exec Log (List Text)
  unfolding reconcile_line
  reconcile_lines keep ports [] = pure []
  reconcile_lines keep ports (line ∷ lines) = do
    first ← reconcile_line keep ports line
    others ← reconcile_lines keep ports lines
    pure (first ++ others)

  unfoldable pub reconcile : (Text → Bool) → List ℕ → Exec Log (List Text)
  unfolding reconcile_lines split_by
  reconcile keep ports = do
    out ←
        docker h (codes "ps" ∷ codes "-a" ∷ codes "--format" ∷ codes "{{.Names}}\t{{.Ports}}" ∷ [])
    reconcile_lines keep ports (split 10 out)

  unfoldable pub wipe_data : Node → Text → Text → Exec Log (Unit {0})
  wipe_data n id overlay = do_docker h (wipe_command (wipe_dir n id overlay))
