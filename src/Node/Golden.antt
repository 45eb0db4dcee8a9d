-- ===== src/Node/Golden.antt =====
-- internal/node/node.go: the golden base of the overlay, and the figures of a node's health.
-- strconv's floats are a parameter.
use droidpool.Prelude.{
  ℕ, ◌*◌, Bool, false, not, List, [], ◌∷◌, ◌++◌, Option, none, some, if◌then◌else◌, select, Text,
  codes, text_eq,
}
use droidpool.Prelude.Int.{ℤ, atoi}
use droidpool.Prelude.Strings.{fields, split, split_by, join, trim_space}
use droidpool.Exec.{Result, ok, err, Exec, pure, attempt, ◌>>=◌, ◌>>◌, bad_health}
use droidpool.Pool.Time.{second}
use droidpool.Pool.Identity.{Identity}
use droidpool.Api.Urls.{has_prefix}
use droidpool.Node.Host.{Host, Node, Log, do_docker, try_docker, ssh}
use droidpool.Node.Names.{golden_name, shell_quote}
use droidpool.Node.Containers.{wait_boot_container, wipe_command}
use droidpool.Node.Props.{TarEntry, IdentityArgs, identity_args, finally}
use droidpool.Node.Egress.{publish_port}

abbrev stamp_of : Text → Option Identity → Text
stamp_of image none = image
stamp_of image (some i) =
    image ++ b' ' ∷ join b'/' (i.model ∷ i.brand ∷ i.manufacturer ∷ i.device ∷ i.name ∷ [])

unfoldable pub golden_stamp : Node → Text
unfolding join
golden_stamp n = stamp_of n.image n.default_identity

-- The shell commands that settle a golden container.
abbrev pub golden_settings : List Text
golden_settings =
    codes "settings put global window_animation_scale 0"
    ∷ codes "settings put global transition_animation_scale 0"
    ∷ codes "settings put global animator_duration_scale 0"
    ∷ codes "settings put system screen_off_timeout 2147483647"
    ∷ codes "svc power stayon true"
    ∷ codes "setprop persist.sys.locale zh-CN"
    ∷ codes "setprop persist.sys.timezone Asia/Shanghai"
    ∷ codes "settings put global package_verifier_enable 0"
    ∷ []

abbrev in_golden : List Text → List Text
in_golden args = codes "exec" ∷ golden_name ∷ args

abbrev in_golden_sh : Text → List Text
in_golden_sh cmd = in_golden (codes "sh" ∷ codes "-c" ∷ cmd ∷ [])

abbrev is_stamp : Text → Result Text → Bool
is_stamp want (ok out) = text_eq (trim_space out) want
is_stamp want (err e) = false

-- `docker run` of the golden container, without the arguments of the overlay.
unfoldable pub golden_command : Node → Text → ℕ → IdentityArgs → List Text
unfolding fields
golden_command n base port i =
    select (λ a. not (has_prefix (codes "androidboot.use_redroid_overlayfs") a))
      ((codes "run" ∷ codes "-d" ∷ codes "--privileged" ∷ codes "--name" ∷ golden_name ∷ [])
        ++ (publish_port port
            ++ (codes "-v"
                ∷ (base ++ codes ":/data")
                ∷ (i.mounts ++ n.image ∷ (fields n.boot_args ++ i.boot)))))

module _ (h : Host) where
  unfoldable pub settle_golden : List Text → Exec Log (Unit {0})
  settle_golden [] = pure tt
  settle_golden (cmd ∷ cmds) = do do_docker h (in_golden_sh cmd); settle_golden cmds

  module _ (tar : Text → List TarEntry) (n : Node) where
    abbrev stamp_command : Text
    stamp_command =
        codes "printf '%s' " ++ (shell_quote (golden_stamp n) ++ codes " > /data/.droidpool-image")

    unfoldable pub build_golden : Text → ℕ → Exec Log (Unit {0})
    unfolding golden_command settle_golden golden_stamp wait_boot_container
    build_golden base port = do
      do_docker h (wipe_command base)
      try_docker h (codes "rm" ∷ codes "-f" ∷ golden_name ∷ [])
      i ← identity_args h tar n (codes "golden") n.default_identity
      do_docker h (golden_command n base port i)
      finally
          (do
            wait_boot_container h golden_name (90 * second)
            settle_golden golden_settings
            try_docker h (in_golden (codes "sync" ∷ []))
            do_docker h (in_golden_sh stamp_command)
            do_docker h (codes "stop" ∷ codes "-t" ∷ codes "10" ∷ golden_name ∷ []))
          (try_docker h (codes "rm" ∷ codes "-f" ∷ golden_name ∷ []))

    abbrev read_stamp : Text → Text
    read_stamp base =
        codes "test -d "
        ++ (base
            ++ (codes "/system && cat " ++ (base ++ codes "/.droidpool-image 2>/dev/null || true")))

    unfoldable pub make_golden : Text → ℕ → Exec Log (Unit {0})
    unfolding build_golden
    make_golden base port = do
      r ← attempt (ssh h n (read_stamp base))
      if is_stamp (golden_stamp n) r then pure tt else build_golden base port

pub record Figures (Float : Type 0) : Type 0 where
  pub mem_total_mib : ℤ
  pub mem_avail_mib : ℤ
  pub swap_used_mib : ℤ
  pub temp_c : Float
  pub load1 : Float

-- The fields of all lines, one after the other.
unfoldable pub line_fields : List Text → List Text
unfolding fields
line_fields [] = []
line_fields (line ∷ lines) = fields line ++ line_fields lines

abbrev pub mem_avail_awk : Text
mem_avail_awk =
    codes "awk '/^MemTotal:/{t=$2} /^MemFree:/{f=$2} /^Cached:/{c=$2} "
    ++ (codes "/^SReclaimable:/{s=$2} /^Shmem:/{sh=$2} /^Mapped:/{m=$2} "
        ++ codes
            "END{a=f+c+s-sh-m; if(a<f)a=f; printf \"%d %d\\n\", int(t/1024), int(a/1024)}' /proc/meminfo")

abbrev health_script : Text
health_script =
    mem_avail_awk
    ++ (codes "; awk '/^SwapTotal:/{t=$2} /^SwapFree:/{f=$2} "
        ++ (codes "END{printf \"%d\\n\", int((t-f)/1024)}' /proc/meminfo; "
            ++ codes "cat /sys/class/thermal/thermal_zone0/temp; cut -d\" \" -f1 /proc/loadavg"))

-- `float` is the value that ParseFloat returns, whether it fails or not.
module _ {Float : Type 0} (float : Text → Float) (thousandth : Float → Float) where
  -- Fewer than five fields are an error, and further ones are not read.
  abbrev figures_of : List Text → Result (Figures Float)
  figures_of (total ∷ avail ∷ swap ∷ milli ∷ load ∷ rest) = ok (record {
    mem_total_mib = (atoi total).0;
    mem_avail_mib = (atoi avail).0;
    swap_used_mib = (atoi swap).0;
    temp_c = thousandth (float milli);
    load1 = float load;
  })
  figures_of fs = err bad_health

  unfoldable pub parse_health : Text → Result (Figures Float)
  unfolding line_fields split_by trim_space atoi
  parse_health out = figures_of (line_fields (split 10 (trim_space out)))

  unfoldable pub health : Host → Node → Exec Log (Figures Float)
  unfolding parse_health
  health h n = do out ← ssh h n health_script; λ log. (parse_health out, log)
