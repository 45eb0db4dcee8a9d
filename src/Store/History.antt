-- ===== src/Store/History.antt =====
-- Histories of calls of the methods of internal/store/store.go, and the consistency of the tables.
use droidpool.Prelude.{
  ℕ, ◌<◌, ◌≡◌, refl, Bool, List, [], ◌∷◌, Option, none, some, arith, if◌then◌else◌, any, find?, All,
  Text,
}
use droidpool.Exec.{not_found}
use droidpool.Exec.Keeps.{
  Keeps, Keeps-bind, Keeps-then, Keeps-if, Keeps-or_raise, Keeps-raise, Keeps-pure,
}
use droidpool.Pool.State.{DeviceState, resetting}
use droidpool.Pool.Time.{Time, unix}
use droidpool.Pool.Identity.{Identity}
use droidpool.Pool.Lease.{Device, Lease}
use droidpool.Store.Tables.{DeviceRow, LeaseRow, has_device, has_lease}
use droidpool.Store.Sql.{Db}
use droidpool.Store.Devices.{
  upsert_device, update_device, set_device_egress, set_device_camera, set_device_identity,
  set_device_location, set_device_state, with_state,
}
use droidpool.Store.Leases.{
  take_device, claim, renew, set_human_takeover, touch, release, update_lease, lease_device,
  end_lease, reset_device, has_id, find_for,
}
use droidpool.Store.Consistency.{
  IsConsistent, KeepsKeys, update_devices-IsConsistent, update_leases-IsConsistent,
  upsert_row-IsConsistent, insert-IsConsistent,
}
use droidpool.Store.Keeps.{
  Holds, Keeps-query, Keeps-exec, Keeps-exec_checked, Keeps-transaction, Keeps-get_device,
}

pub upsert_device-Consistent : (d : Device) → Keeps (Holds IsConsistent) (upsert_device d)
unfolding upsert_device
upsert_device-Consistent d = Keeps-exec IsConsistent _ (λ t c. upsert_row-IsConsistent t _ c)

update_device-Consistent :
    (id : Text) (f : DeviceRow → DeviceRow)
    → ((r : DeviceRow) → (f r).id ≡ r.id)
    → Keeps (Holds IsConsistent) (update_device id f)
unfolding update_device
update_device-Consistent id f keep = record {
  at = λ db c.
      (Keeps-then _ _
          (Keeps-exec IsConsistent _ (λ t. update_devices-IsConsistent t (has_device id) f keep))
          (Keeps-if (any (has_device id) db.devices) _ _ (Keeps-pure tt)
            (Keeps-raise not_found))).at
        db c;
}

update_lease-Consistent :
    (id : Text) (f : LeaseRow → LeaseRow)
    → KeepsKeys f
    → Keeps (Holds IsConsistent) (update_lease id f)
unfolding update_lease
update_lease-Consistent id f keep = record {
  at = λ db c.
      (Keeps-then _ _
          (Keeps-exec IsConsistent _ (λ t. update_leases-IsConsistent t (has_lease id) f keep))
          (Keeps-if (any (has_lease id) db.leases) _ _ (Keeps-pure tt) (Keeps-raise not_found))).at
        db c;
}

set_device_state-Consistent :
    (id : Text) (to : DeviceState) → Keeps (Holds IsConsistent) (set_device_state id to)
unfolding set_device_state
set_device_state-Consistent id to = Keeps-bind _ _ (Keeps-get_device IsConsistent id) λ d.
    Keeps-bind _ _ (record { at = λ db c. c })
      λ _.
        Keeps-exec IsConsistent _ (λ t. update_devices-IsConsistent t (has_device id) _ (λ r. refl))

take_device-Consistent : (l : Lease) (now : Time) → Keeps (Holds IsConsistent) (take_device l now)
unfolding take_device lease_device
take_device-Consistent l now = Keeps-bind _ _ (Keeps-query IsConsistent _) λ free.
    Keeps-bind _ _ (Keeps-or_raise free _) λ d.
      Keeps-then _ _
        (Keeps-exec IsConsistent _
          (λ t. update_devices-IsConsistent t (has_device d.id) _ (λ r. refl)))
        (Keeps-then _ _ (Keeps-exec_checked IsConsistent _ _ (λ t. insert-IsConsistent t _))
          (Keeps-pure _))

claim-Consistent : (l : Lease) (now : Time) → Keeps (Holds IsConsistent) (claim l now)
unfolding claim
claim-Consistent l now = Keeps-transaction IsConsistent _ (
    Keeps-bind _ _ (Keeps-query IsConsistent (find_for l.host l.worktree))
      (elim [ some r ↦ Keeps-pure _ | none ↦ take_device-Consistent l now ]))

-- The column updates of renewing, touching, taking over and releasing leave the keys alone.
renewed-KeepsKeys : (v : ℕ) → KeepsKeys (λ r. record r { expires_at = v })
renewed-KeepsKeys v = record {
  id = λ r. refl;
  device_id = λ r. refl;
  host = λ r. refl;
  worktree = λ r. refl;
  active = λ r e. e;
}

touched-KeepsKeys : (v : ℕ) → KeepsKeys (λ r. record r { last_seen_at = v })
touched-KeepsKeys v = record {
  id = λ r. refl;
  device_id = λ r. refl;
  host = λ r. refl;
  worktree = λ r. refl;
  active = λ r e. e;
}

taken_over-KeepsKeys :
    (v : ℕ) (note : Text) → KeepsKeys (λ r. record r { human_takeover = v; human_note = note })
taken_over-KeepsKeys v note = record {
  id = λ r. refl;
  device_id = λ r. refl;
  host = λ r. refl;
  worktree = λ r. refl;
  active = λ r e. e;
}

ended-KeepsKeys : (v : ℕ) → 0 < v → KeepsKeys (λ r. record r { released_at = v })
ended-KeepsKeys v pos = record {
  id = λ r. refl;
  device_id = λ r. refl;
  host = λ r. refl;
  worktree = λ r. refl;
  active = λ r e. ground arith;
}

release-Consistent :
    (id : Text) (now : Time) → 0 < unix now → Keeps (Holds IsConsistent) (release id now)
unfolding release reset_device end_lease
release-Consistent id now pos = Keeps-transaction IsConsistent _ (
    Keeps-bind _ _ (Keeps-query IsConsistent (λ t. find? (has_lease id) t.leases)) λ row.
      Keeps-bind _ _ (Keeps-or_raise row not_found) λ found.
        Keeps-then _ _
          (Keeps-exec IsConsistent (end_lease id now)
            (λ t. update_leases-IsConsistent t (has_id id) _ (ended-KeepsKeys (unix now) pos)))
          (Keeps-then _ _
            (Keeps-exec IsConsistent (reset_device found.device_id) (λ t.
              update_devices-IsConsistent t (has_device found.device_id) (with_state resetting)
                (λ r. refl)))
            (Keeps-pure found.device_id)))

-- The calls that write.
pub data Call : Type 0 where
  upserts : Device → Call
  sets_egress sets_camera sets_location : Text → Text → Call
  sets_identity : Text → Option Identity → Call
  sets_state : Text → DeviceState → Call
  claims : Lease → Time → Call
  renews touches releases : Text → Time → Call
  sets_takeover : Text → Bool → Text → Call

unfoldable pub perform : Call → Db → Db
perform (upserts d) db = (upsert_device d db).1
perform (sets_egress id proxy) db = (set_device_egress id proxy db).1
perform (sets_camera id rtsp) db = (set_device_camera id rtsp db).1
perform (sets_location id location) db = (set_device_location id location db).1
perform (sets_identity id ident) db = (set_device_identity id ident db).1
perform (sets_state id to) db = (set_device_state id to db).1
perform (claims l now) db = (claim l now db).1
perform (renews id t) db = (renew id t db).1
perform (touches id t) db = (touch id t db).1
perform (releases id t) db = (release id t db).1
perform (sets_takeover id on note) db = (set_human_takeover id on note db).1

unfoldable pub perform_all : List Call → Db → Db
unfolding perform
perform_all [] db = db
perform_all (c ∷ cs) db = perform_all cs (perform c db)

-- A lease is not released in second 0 of 1970, whose column value means that it is active.
abbrev pub IsTimely : Call → Type 0
IsTimely (releases id t) = 0 < unix t
IsTimely _ = Unit

perform-IsConsistent :
    (c : Call) (db : Db) → IsTimely c → IsConsistent db.tables → IsConsistent (perform c db).tables
unfolding perform set_device_egress set_device_camera set_device_location set_device_identity renew
    touch set_human_takeover
perform-IsConsistent (upserts d) db _ k = (upsert_device-Consistent d).at db k
perform-IsConsistent (sets_egress id proxy) db _ k =
    (update_device-Consistent id _ (λ r. refl)).at db k
perform-IsConsistent (sets_camera id rtsp) db _ k =
    (update_device-Consistent id _ (λ r. refl)).at db k
perform-IsConsistent (sets_location id location) db _ k =
    (update_device-Consistent id _ (λ r. refl)).at db k
perform-IsConsistent (sets_identity id ident) db _ k =
    (update_device-Consistent id _ (λ r. refl)).at db k
perform-IsConsistent (sets_state id to) db _ k = (set_device_state-Consistent id to).at db k
perform-IsConsistent (claims l now) db _ k = (claim-Consistent l now).at db k
perform-IsConsistent (renews id t) db _ k =
    (update_lease-Consistent id _ (renewed-KeepsKeys (unix t))).at db k
perform-IsConsistent (touches id t) db _ k =
    (update_lease-Consistent id _ (touched-KeepsKeys (unix t))).at db k
perform-IsConsistent (releases id t) db pos k = (release-Consistent id t pos).at db k
perform-IsConsistent (sets_takeover id on note) db _ k =
    (update_lease-Consistent id _ (taken_over-KeepsKeys (if on then 1 else 0) note)).at db k

-- Under any sequence of calls of the store's methods, with any statements failing, no device and
-- no worktree has two active leases, ids stay distinct and every lease is for a device of the
-- table, if it was so before and no lease is released in second 0 of 1970.
pub perform_all-IsConsistent :
    (cs : List Call) (db : Db)
    → All IsTimely cs
    → IsConsistent db.tables
    → IsConsistent (perform_all cs db).tables
unfolding perform_all
perform_all-IsConsistent [] db h k = k
perform_all-IsConsistent (c ∷ cs) db h k =
    perform_all-IsConsistent cs (perform c db) h.1 (perform-IsConsistent c db h.0 k)
