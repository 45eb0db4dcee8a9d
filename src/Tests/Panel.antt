-- ===== src/Tests/Panel.antt =====
-- A change of egress and of the camera, and a hub with one wall that is watched.
use droidpool.Prelude.{ℕ, ◌≡◌, refl, Bool, not, List, [], ◌∷◌, some, Text, codes, text_eq, is_empty}
use droidpool.Store.Tables.{update_where, scan_device}
use droidpool.Store.Sql.{fails, later_faults}
use droidpool.Store.Devices.{get_device, update_device, set_device_egress}
use droidpool.Manager.Index.{strip_prefix}
use droidpool.Manager.Settings.{set_egress}
use droidpool.Api.Urls.{validate_proxy, after_last_at}
use droidpool.Api.Settings.{Panel, changed, egress, handle_set_egress}
use droidpool.Api.Hub.{Hub}
use droidpool.Tests.Data.{world, manager, start}

abbrev panel : Panel
panel = record { sys = start; published = [] }

abbrev any_host : Text → Bool
any_host s = not (is_empty s)

abbrev same : Text → Text
same s = s

abbrev proxy : Text
proxy = codes "socks5://h:1080"

abbrev proxied : Panel
proxied =
    (handle_set_egress any_host same (some (set_egress world manager)) (codes "n-1") (some proxy)
      panel).1

is_proxied :
    handle_set_egress any_host same
      (some (set_egress world manager))
      (codes "n-1")
      (some proxy)
      panel
    ≡ (changed (egress (codes "n-1") proxy), proxied)
unfolding handle_set_egress set_egress set_device_egress update_device update_where get_device
    scan_device validate_proxy strip_prefix after_last_at text_eq fails later_faults
is_proxied = refl

abbrev waiting : List ℕ
waiting = 1 ∷ 2 ∷ []

abbrev watched : Hub ℕ
watched = some (record { channel = 7; queue = waiting } ∷ [])
