-- ===== src/Client/Run.antt =====
-- cmd/droidpool/main.go: installing an app, seeding its back end, taking it through its first pages,
-- and dumping the view. What it prints is left out.
use droidpool.Prelude.{
  ℕ, zero, suc, ◌*◌, Bool, true, false, not, ◌∷◌, ◌++◌, List, [], Option, none, some, inl,
  if◌then◌else◌, is_empty, Text, codes, utf8,
}
use droidpool.Prelude.Decimal.{decimal}
use droidpool.Prelude.Int.{ℤ}
use droidpool.Pool.Time.{second}
use droidpool.Client.{Act, temp_file, Outside, Run, done, exit, fatal, ◌>>=◌, ◌>>◌, adb_dev, wait}
use droidpool.Client.Device.{check, ui_descs, tap_desc, contains_any}
use droidpool.Client.Flags.{
  Kind, text_flag, bool_flag, Parsed, bad_usage, usage, flags, parse, value, truth,
}

-- The setting of the back end's host, whether a file is there, the certificate's pin, the name of
-- the temporary file, and boundsCenter, which goes by regular expressions.
pub record Machine : Type 0 where
  pub edge_host : Text
  pub exists : Text → Bool
  pub pin : Text → ℕ → Option Text
  pub temp_name : Option Text
  pub center : Text → Text → Bool → Option (ℤ × ℤ)

abbrev pub cashier_pkg : Text
cashier_pkg = codes "cn.daboshi.cashier_app.dev"

unfoldable pub edge_xml : Text → ℕ → Text → Text
edge_xml host port pin =
    codes "<?xml version='1.0' encoding='utf-8' standalone='yes' ?>\n<map>\n"
    ++ (codes "    <string name=\"flutter.edge_endpoint_v1\">{\"host\":\""
        ++ (host
            ++ (codes "\",\"port\":"
                ++ (decimal port
                    ++ (codes "}</string>\n    <string name=\"flutter.edge_cert_pins_v1\">{\""
                        ++ (host
                            ++ (b':'
                                ∷ (decimal port
                                    ++ (codes "\":\""
                                        ++ (pin ++ codes "\"}</string>\n</map>\n"))))))))))

unfoldable pub seed_script : Text → Text
seed_script pkg =
    let prefs = codes "/data/data/" ++ (pkg ++ codes "/shared_prefs") in
    codes "run-as "
    ++ (pkg
        ++ (codes " mkdir -p "
            ++ (prefs
                ++ (codes " && run-as "
                    ++ (pkg
                        ++ (codes " cp /data/local/tmp/fsp.xml "
                            ++ (prefs
                                ++ (codes "/FlutterSharedPreferences.xml && am force-stop "
                                    ++ pkg))))))))

abbrev noted : Act → Run (Unit {0})
noted a s = (inl tt, record s { acts = a ∷ s.acts })

abbrev or_fatal : Option Text → Run Text
or_fatal none = fatal
or_fatal (some t) = done t

module _ (o : Outside) (m : Machine) where
  abbrev must : Bool × Text → Run (Unit {0})
  must (succeeded, out) = check succeeded

  -- The file is removed at the end only if nothing failed: os.Exit runs no deferred call.
  unfoldable pub cmd_seed_edge : Text → ℕ → Text → Run (Unit {0})
  unfolding adb_dev edge_xml seed_script
  cmd_seed_edge host port pkg = do
    check (not (is_empty host))
    pin ← or_fatal (m.pin host port)
    tmp ← or_fatal m.temp_name
    noted (temp_file tmp (some (edge_xml host port pin)))
    pushed ← adb_dev o (codes "push" ∷ tmp ∷ codes "/data/local/tmp/fsp.xml" ∷ [])
    must pushed
    seeded ← adb_dev o (codes "shell" ∷ seed_script pkg ∷ [])
    must seeded
    noted (temp_file tmp none)

  -- One look at the page, and whether it is the last one.
  unfoldable pub onboard_step : Run Bool
  unfolding wait ui_descs tap_desc contains_any
  onboard_step = do wait o (2 * second); descs ← ui_descs o m.center; react descs
    where
      react : Text → Run Bool
      react descs =
          if contains_any o descs (utf8 "jingli" ∷ utf8 "选择员工" ∷ utf8 "测试并连接" ∷ [])
          then done true
          else if contains_any o descs (utf8 "同意并继续" ∷ [])
          then (do tap_desc o m.center (utf8 "同意并继续") true; done false)
          else if contains_any o descs (utf8 "这台设备是" ∷ [])
          then (do tap_desc o m.center (utf8 "共享收银机") false; done false)
          else done false

  unfoldable pub onboard : ℕ → Run (Unit {0})
  unfolding onboard_step
  onboard zero = done tt
  onboard (suc k) = do over ← onboard_step; if over then done tt else onboard k

  abbrev pub run_flags : List (Text × Kind)
  run_flags =
      (codes "apk", text_flag)
      ∷ (codes "pkg", text_flag)
      ∷ (codes "activity", text_flag)
      ∷ (codes "no-seed", bool_flag)
      ∷ (codes "no-onboard", bool_flag)
      ∷ []

  -- Seeding is called without arguments, and takes the defaults of its flags.
  unfoldable pub run_app : Text → Text → Text → Bool → Bool → Run (Unit {0})
  unfolding cmd_seed_edge onboard adb_dev
  run_app apk pkg activity no_seed no_onboard = do
    check (m.exists apk)
    installed ← adb_dev o (codes "install" ∷ codes "-r" ∷ codes "-t" ∷ apk ∷ [])
    must installed
    if no_seed then done tt else cmd_seed_edge m.edge_host 8090 cashier_pkg
    started ← adb_dev o (
        codes "shell"
        ∷ codes "am"
        ∷ codes "start"
        ∷ codes "-W"
        ∷ codes "-n"
        ∷ (pkg ++ b'/' ∷ activity)
        ∷ [])
    must started
    if no_onboard then done tt else onboard 8

  abbrev pub run_with : Parsed → Run (Unit {0})
  run_with bad_usage = exit 2
  run_with usage = exit 0
  run_with (flags fs args) =
      run_app (value (codes "apk") (codes "build/app/outputs/flutter-apk/app-debug.apk") fs)
        (value (codes "pkg") cashier_pkg fs)
        (value (codes "activity") (codes "cn.daboshi.cashier_app.MainActivity") fs)
        (truth (codes "no-seed") fs) (truth (codes "no-onboard") fs)

  unfoldable pub cmd_run : List Text → Run (Unit {0})
  unfolding parse run_app value truth
  cmd_run args = run_with (parse run_flags none args)
