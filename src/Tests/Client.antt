-- ===== src/Tests/Client.antt =====
-- The client on a lease that the server knows of no more, and a battery.
use droidpool.Prelude.{arith, ◌≡◌, refl, true, false, [], ◌∷◌, none, inl, inr, if◌then◌else◌, codes}
use droidpool.Prelude.Int.{pos}
use droidpool.Client.{LeaseState, absent, holds, Body, answered, Outside}
use droidpool.Client.Commands.{cmd_release}
use droidpool.Client.Device.{cmd_battery}
use droidpool.Client.Released.{is_settled, deletion, cmd_release-Settles}
use droidpool.Pool.Time.{unix}
use droidpool.Api.Leases.{Web, handle_release}
use droidpool.Store.Sql.{healthy}
use droidpool.Tests.Data.{now, pool, server}
use droidpool.Client.Served.{as_read, Ends, cmd_release-Ends}
use droidpool.Client.Powered.{IsPowered, cmd_battery-IsPowered}

abbrev held : LeaseState
held = record { lease_id = codes "a"; device_id = codes "n-1"; adb_addr = codes "h:5001" }

abbrev nothing_sent : Body
nothing_sent = record { lease = held; reused = false; leases = []; rebuilt = false }

abbrev pub gone : Outside
gone = record {
  response = λ acts. answered 404 (codes "not_found") (codes "no such lease") [] nothing_sent;
  adb_fails = λ acts. false;
  adb_output = λ acts. [];
  writes = λ acts. true;
}

cmd_release-Settles_example : cmd_release gone (record { file = holds held; acts = [] }) ≡ (
    if is_settled (gone.response (deletion held ∷ []))
    then (
      inl tt,
      record {
        file = if gone.writes (deletion held ∷ []) then absent else holds held;
        acts = deletion held ∷ [];
      },
    )
    else (inr 1, record { file = holds held; acts = deletion held ∷ [] }))
cmd_release-Settles_example = cmd_release-Settles gone held [] refl refl

cmd_battery-IsPowered_example :
    IsPowered gone held.adb_addr []
      (cmd_battery gone false
        (pos 50)
        (codes "full")
        none
        (record { file = holds held; acts = [] })).1.acts
cmd_battery-IsPowered_example =
    cmd_battery-IsPowered gone held false (pos 50) (codes "full") none []

abbrev web : Web
web = record { db = healthy pool; events = []; resetting = [] }

-- It answers as the server does.
abbrev served : Outside
served = record {
  response = λ acts.
      as_read (handle_release server now held.lease_id web).0 (codes "gone") [] nothing_sent;
  adb_fails = λ acts. false;
  adb_output = λ acts. [];
  writes = λ acts. true;
}

cmd_release-Ends_example :
    Ends served held [] web
      (handle_release server now held.lease_id web).1
      (cmd_release served (record { file = holds held; acts = [] }))
cmd_release-Ends_example =
    cmd_release-Ends served server now web held [] (codes "gone") [] nothing_sent refl
      (unfold unix in omega arith) refl
