-- ===== src/Node/Names.antt =====
-- internal/node: the names of containers, video nodes and directories, and quoting for a shell.
use droidpool.Prelude.{
  ℕ, ◌^◌, [], ◌∷◌, ◌++◌, Option, none, some, if◌then◌else◌, ltb, ◌==◌, is_empty, Text, codes,
}
use droidpool.Prelude.Decimal.{scan, is_digit}
use droidpool.Prelude.Int.{pos, ◌+ℤ◌, same_int}
use droidpool.Adb.{itoa}
use droidpool.Pool.Identity.{all_bytes}
use droidpool.Manager.Index.{strip_prefix}
use droidpool.Node.Host.{Node}

unfoldable pub container_name : Text → Text
container_name id = codes "droidpool-" ++ id

unfoldable pub relay_name : Text → Text
relay_name id = codes "droidpool-egress-" ++ id

unfoldable pub tun_name : Text → Text
tun_name id = codes "droidpool-tun-" ++ id

unfoldable pub cam_feed_name : Text → Text
cam_feed_name id = codes "droidpool-cam-" ++ id

abbrev pub golden_name : Text
golden_name = codes "droidpool-golden"

-- `id, found := strings.CutPrefix(container, p); found && id != ""`
abbrev pub proper : Option Text → Option Text → Option Text
proper none next = next
proper (some id) next = if is_empty id then next else some id

-- The device that a container of the egress or camera chain serves.
unfoldable pub sidecar_device_id : Text → Option Text
unfolding strip_prefix
sidecar_device_id c = proper (strip_prefix (codes "droidpool-tun-") c) (
    proper (strip_prefix (codes "droidpool-egress-") c)
      (proper (strip_prefix (codes "droidpool-cam-") c) none))

-- The longest end of the text that is all digits.
unfoldable pub trailing_digits : Text → Text
unfolding is_digit
trailing_digits [] = []
trailing_digits (c ∷ s) =
    let rest = trailing_digits s in if all_bytes is_digit (c ∷ s) then c ∷ s else rest

-- strconv.Atoi of these, and 0 if there are none or the number is no int.
unfoldable pub trailing_number : Text → ℕ
unfolding trailing_digits
trailing_number s = let (n, _) = scan 0 (trailing_digits s) in if ltb n (2 ^ 63) then n else 0

-- The numbers of video nodes are far from the end of an int.
unfoldable pub camera_device : Node → Text → Text
unfolding trailing_number
camera_device n id =
    if same_int n.camera_video_base (pos 0)
    then []
    else codes "/dev/video" ++ itoa (n.camera_video_base +ℤ pos (trailing_number id))

-- strings.ReplaceAll(s, "'", `'\''`)
unfoldable pub escape_quotes : Text → Text
escape_quotes [] = []
escape_quotes (c ∷ s) =
    let rest = escape_quotes s in if c == b'\'' then codes "'\\''" ++ rest else c ∷ rest

unfoldable pub shell_quote : Text → Text
unfolding escape_quotes
shell_quote s = b'\'' ∷ (escape_quotes s ++ b'\'' ∷ [])

unfoldable pub cam_config_path : Node → Text → Text
cam_config_path n id = n.data_root ++ (codes "/camcfg/" ++ (id ++ codes ".xml"))

unfoldable pub props_dir : Node → Text → Text
props_dir n name = n.data_root ++ (codes "/props/" ++ name)
