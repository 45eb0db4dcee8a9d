-- ===== src/Node/Props.antt =====
-- internal/node/identity.go: the property files of a device under another hardware identity, and the
-- mock location. archive/tar is a parameter: the entries that a stream holds.
use droidpool.Prelude.{
  ◌-◌, ◌+◌, Bool, true, false, ◌&&◌, ◌||◌, List, [], ◌∷◌, ◌++◌, Option, none, some, map,
  if◌then◌else◌, leb, ◌==◌, is_empty, Text, codes, text_eq,
}
use droidpool.Prelude.Strings.{split, split_by, join, trim_right_by}
use droidpool.Exec.{
  Result, err, Exec, pure, raise, or_raise, ◌>>=◌, ◌>>◌, bad_identity, bad_archive, bad_location,
}
use droidpool.Pool.Identity.{Identity, IdentityError, validate, is_upper}
use droidpool.Pool.Location.{Floats, parse_location, format_location}
use droidpool.Manager.Index.{strip_prefix}
use droidpool.Api.Urls.{cut, has_prefix}
use droidpool.Node.Host.{Host, Node, Log, docker, do_docker, try_docker}
use droidpool.Node.Names.{container_name, props_dir}

-- The four files: the path in the container, and the name on the host.
abbrev pub prop_files : List (Text × Text)
prop_files =
    (codes "/system/build.prop", codes "system.prop")
    ∷ (codes "/vendor/build.prop", codes "vendor.prop")
    ∷ (codes "/system/product/etc/build.prop", codes "product.prop")
    ∷ (codes "/system/system_ext/etc/build.prop", codes "system_ext.prop")
    ∷ []

-- strings.ToUpper and the filter, of ASCII.
unfoldable pub upper_alnum : Text → Text
unfolding is_upper
upper_alnum [] = []
upper_alnum (c ∷ s) =
    let rest = upper_alnum s in
    if leb b'a' c && leb c b'z'
    then (c + b'A' - b'a') ∷ rest
    else if is_upper c || (leb b'0' c && leb c b'9')
    then c ∷ rest
    else rest

unfoldable pub default_serial : Text → Text
unfolding upper_alnum
default_serial id = codes "DP" ++ upper_alnum id

-- A header with what reading the file gives, or a header that cannot be read.
pub data TarEntry : Type 0 where
  entry : Bool → Result Text → TarEntry
  bad_header : TarEntry

unfoldable pub first_file_in_tar : List TarEntry → Result Text
first_file_in_tar [] = err bad_archive
first_file_in_tar (bad_header ∷ es) = err bad_archive
first_file_in_tar (entry true content ∷ es) = content
first_file_in_tar (entry false content ∷ es) = first_file_in_tar es

unfoldable pub identity_key : Text → Option (Identity → Text)
unfolding text_eq
identity_key k =
    if text_eq k (codes "model")
    then some (λ id. id.model)
    else if text_eq k (codes "brand")
    then some (λ id. id.brand)
    else if text_eq k (codes "manufacturer")
    then some (λ id. id.manufacturer)
    else if text_eq k (codes "device")
    then some (λ id. id.device)
    else if text_eq k (codes "name")
    then some (λ id. id.name)
    else none

abbrev with_value : Identity → Text → Text → Option (Identity → Text) → Text
with_value id line key none = line
with_value id line key (some get) = key ++ b'=' ∷ get id

-- `ro product <partition> <key>`
abbrev with_parts : Identity → Text → Text → List Text → Text
with_parts id line key [] = line
with_parts id line key (a ∷ []) = line
with_parts id line key (a ∷ b ∷ []) = line
with_parts id line key (a ∷ b ∷ c ∷ []) = line
with_parts id line key (a ∷ b ∷ c ∷ k ∷ []) = with_value id line key (identity_key k)
with_parts id line key (a ∷ b ∷ c ∷ k ∷ x ∷ xs) = line

abbrev with_key : Identity → Text → Option (Text × Text) → Text
with_key id line none = line
with_key id line (some (key, value)) =
    if has_prefix (codes "ro.product.") key then with_parts id line key (split b'.' key) else line

unfoldable pub rewrite_line : Identity → Text → Text
unfolding cut strip_prefix split_by identity_key
rewrite_line id line = with_key id line (cut (codes "=") line)

unfoldable pub rewrite_props : Text → Identity → Text
unfolding rewrite_line split_by join trim_right_by
rewrite_props content id =
    join 10 (map (rewrite_line id) (split 10 (trim_right_by (λ c. c == 10) content))) ++ 10 ∷ []

abbrev pub heredoc_end : Text
heredoc_end = codes "DROIDPOOLEOF"

abbrev newline : Text → Text
newline s = s ++ 10 ∷ []

-- The deferred call at the end, whatever the result.
unfoldable pub finally : {A : Type 0} → Exec Log A → Exec Log (Unit {0}) → Exec Log A
finally m last log = let (r, log') = m log in (r, (last log').1)

unfoldable pub returned : {A : Type 0} → Result A → Exec Log A
returned r log = (r, log)

abbrev refuse : Option IdentityError → Exec Log (Unit {0})
refuse none = pure tt
refuse (some e) = raise (bad_identity e)

unfoldable pub checked : Identity → Exec Log (Unit {0})
checked i = refuse (validate i)

-- What `docker run` is given on top: mounts, and arguments of the boot.
pub record IdentityArgs : Type 0 where
  pub mounts : List Text
  pub boot : List Text

module _ (h : Host) (tar : Text → List TarEntry) where
  -- The part of the script that writes one file after another.
  unfoldable pub prop_script : Text → Text → Identity → List (Text × Text) → Exec Log Text
  unfolding rewrite_props first_file_in_tar
  prop_script tmp name i [] = pure []
  prop_script tmp name i ((path, file) ∷ files) = do
    out ← docker h (codes "cp" ∷ (tmp ++ b':' ∷ path) ∷ codes "-" ∷ [])
    content ← returned (first_file_in_tar (tar out))
    rest ← prop_script tmp name i files
    pure (
        newline (codes "cat > /out/" ++ (name ++ (b'/' ∷ (file ++ codes " <<'DROIDPOOLEOF'"))))
        ++ (rewrite_props content i ++ (newline heredoc_end ++ rest)))

  abbrev mount_args : Text → List (Text × Text) → List Text
  mount_args dir [] = []
  mount_args dir ((path, file) ∷ files) =
      codes "-v" ∷ (dir ++ b'/' ∷ (file ++ b':' ∷ (path ++ codes ":ro"))) ∷ mount_args dir files

  abbrev serial_of : Text → Identity → Text
  serial_of name i = if is_empty i.serial then default_serial name else i.serial

  unfoldable pub identity_args : Node → Text → Option Identity → Exec Log IdentityArgs
  unfolding prop_script props_dir default_serial
  identity_args n name none = pure (record { mounts = []; boot = [] })
  identity_args n name (some i) = do
    checked i
    let tmp = codes "droidpool-props-" ++ name
    try_docker h (codes "rm" ∷ codes "-f" ∷ tmp ∷ [])
    do_docker h (codes "create" ∷ codes "--name" ∷ tmp ∷ n.image ∷ [])
    finally
        (do
          files ← prop_script tmp name i prop_files
          do_docker h (
              codes "run"
              ∷ codes "--rm"
              ∷ codes "-v"
              ∷ (n.data_root ++ codes "/props:/out")
              ∷ codes "busybox:stable"
              ∷ codes "sh"
              ∷ codes "-c"
              ∷ (newline (codes "set -e") ++ (newline (codes "mkdir -p /out/" ++ name) ++ files))
              ∷ [])
          pure (record {
            mounts = mount_args (props_dir n name) prop_files;
            boot = (codes "androidboot.serialno=" ++ serial_of name i) ∷ [];
          }))
        (try_docker h (codes "rm" ∷ codes "-f" ∷ tmp ∷ []))

abbrev clear_script : Text
clear_script =
    codes
      "for p in gps network; do cmd location providers remove-test-provider $p >/dev/null 2>&1; done; true"

abbrev mock_script : Text → Text
mock_script loc =
    codes "appops set com.android.shell android:mock_location allow && "
    ++ (codes "for p in gps network; do "
        ++ (codes "cmd location providers remove-test-provider $p >/dev/null 2>&1; "
            ++ (codes "cmd location providers add-test-provider $p && "
                ++ (codes "cmd location providers set-test-provider-enabled $p true && "
                    ++ (codes "cmd location providers set-test-provider-location $p --location "
                        ++ (loc ++ codes " || exit 1; done"))))))

module _ (h : Host) (fl : Floats) where
  unfoldable pub set_location : Text → Text → Exec Log (Unit {0})
  unfolding parse_location format_location
  set_location id location = do
    at ← or_raise (parse_location fl location) bad_location
    do_docker h (
        codes "exec"
        ∷ codes "-u"
        ∷ codes "2000"
        ∷ container_name id
        ∷ codes "sh"
        ∷ codes "-c"
        ∷ (if is_empty location then clear_script else mock_script (format_location fl at))
        ∷ [])
