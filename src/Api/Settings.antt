-- ===== src/Api/Settings.antt =====
-- internal/api/api.go: the handlers that change a device's settings. What is
-- changed by is an action of any kind, or `none` if the server has none; the manager's are the ones
-- that the daemon gives it. A request is `none` if its body is not the JSON that is asked for.
-- strings.TrimSpace, and the parsing of a location into its canonical text, are arguments: they are
-- not in the repository or compute in floats.
pub mod Stored
use droidpool.Prelude.{
  ℕ, ◌+◌, Bool, true, false, not, ◌&&◌, ◌||◌, List, [], ◌∷◌, Option, none, some, Text, is_empty,
  if◌then◌else◌,
}
use droidpool.Exec.{Error, Result, ok, err, Exec, not_found}
use droidpool.Pool.State.{DeviceState, state_eq, creating, ready, leased, resetting, broken}
use droidpool.Pool.Identity.{is_zero_identity, Identity, normalized, validate}
use droidpool.Pool.Lease.{Device, Lease}
use droidpool.Store.Devices.{list_devices}
use droidpool.Store.Leases.{list_leases}
use droidpool.Manager.World.{Sys}
use droidpool.Api.Urls.{mask_url_credentials, validate_rtsp, validate_proxy}

pub data Refusal : Type 0 where
  unavailable not_json invalid no_device failed : Refusal

abbrev pub status_of : Refusal → ℕ
status_of unavailable = 503
status_of not_json = 400
status_of invalid = 400
status_of no_device = 404
status_of failed = 500

-- What is published, and answered, of a change.
pub data Change : Type 0 where
  egress camera location : Text → Text → Change
  identity : Text → Option Identity → Bool → Change

-- The manager's state and the changes that have been published, newest first.
pub record Panel : Type 0 where
  pub sys : Sys
  pub open sys use *
  pub published : List Change

pub data Answer : Type 0 where
  refused : Refusal → Answer
  changed : Change → Answer

abbrev pub refusal_of : Error → Refusal
refusal_of not_found = no_device
refusal_of _ = failed

-- The change is made; if it is made, it is published and answered.
abbrev pub finish_change : {A : Type 0} → (A → Change) → Panel → Result A × Sys → Answer × Panel
finish_change said p (ok a, s) =
    (changed (said a), record p { sys = s; published = said a ∷ p.published })
finish_change said p (err e, s) = (refused (refusal_of e), record p { sys = s })

-- A value that passes the check is given to the setter.
abbrev pub change_to :
    {A E : Type 0} → Option E → (A → Change) → Exec Sys A → Panel → Answer × Panel
change_to (some e) said act p = (refused invalid, p)
change_to none said act p = finish_change said p (act p.sys)

abbrev pub Setter : Type 0
Setter = Text → Text → Exec Sys (Unit {0})

unfoldable pub handle_set_egress :
    (Text → Bool) → (Text → Text) → Option Setter → Text → Option Text → Panel → Answer × Panel
unfolding validate_proxy
handle_set_egress splits trim none id body p = (refused unavailable, p)
handle_set_egress splits trim (some set) id none p = (refused not_json, p)
handle_set_egress splits trim (some set) id (some proxy) p =
    change_to (validate_proxy splits (trim proxy)) (λ _. egress id (trim proxy))
      (set id (trim proxy)) p

-- The address is stored as it is, and published and answered without its password.
unfoldable pub handle_set_camera :
    (Text → Text) → Option Setter → Text → Option Text → Panel → Answer × Panel
unfolding validate_rtsp mask_url_credentials
handle_set_camera trim none id body p = (refused unavailable, p)
handle_set_camera trim (some set) id none p = (refused not_json, p)
handle_set_camera trim (some set) id (some rtsp) p =
    change_to (validate_rtsp (trim rtsp)) (λ _. camera id (mask_url_credentials (trim rtsp)))
      (set id (trim rtsp)) p

abbrev pub IdentitySetter : Type 0
IdentitySetter = Text → Option Identity → Exec Sys (Option Identity × Bool)

unfoldable pub handle_set_identity :
    Option IdentitySetter → Text → Option Identity → Panel → Answer × Panel
unfolding normalized validate is_zero_identity
handle_set_identity none id body p = (refused unavailable, p)
handle_set_identity (some set) id none p = (refused not_json, p)
handle_set_identity (some set) id (some i) p =
    if is_zero_identity i
    then finish_change (λ r. identity id r.0 r.1) p (set id none p.sys)
    else change_to (validate (normalized i)) (λ r. identity id r.0 r.1)
        (set id (some (normalized i))) p

-- The canonical text of a location, `none` if it cannot be parsed; the empty one is left alone.
abbrev pub located : (Text → Option Text) → Text → Option Text
located canonical s = if is_empty s then some s else canonical s

abbrev pub set_located : Setter → Text → Panel → Option Text → Answer × Panel
set_located set id p none = (refused invalid, p)
set_located set id p (some s) = finish_change (λ _. location id s) p (set id s p.sys)

unfoldable pub handle_set_location :
    (Text → Text)
    → (Text → Option Text)
    → Option Setter
    → Text
    → Option Text
    → Panel
    → Answer × Panel
handle_set_location trim canonical none id body p = (refused unavailable, p)
handle_set_location trim canonical (some set) id none p = (refused not_json, p)
handle_set_location trim canonical (some set) id (some s) p =
    set_located set id p (located canonical (trim s))
