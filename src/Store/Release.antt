-- ===== src/Store/Release.antt =====
-- What `Release` of internal/store/store.go changes and leaves alone.
use droidpool.Prelude.{
  ℕ, ◌<◌, ◌≡◌, refl, ◌⊎◌, inl, inr, false, List, [], ◌∷◌, none, arith, find?, All, Text, text_eq,
  text_eq_iff, Bool-cases,
}
use droidpool.Exec.{ok, err, not_found}
use droidpool.Pool.State.{DeviceState, resetting}
use droidpool.Pool.Time.{Time, unix}
use droidpool.Store.Tables.{DeviceRow, LeaseRow, has_device, has_lease, update_where}
use droidpool.Store.Sql.{Db, healthy, fails, later_faults}
use droidpool.Store.Devices.{with_state}
use droidpool.Store.Leases.{release, end_lease, reset_device, has_id, get_lease}

abbrev pub ended : ℕ → LeaseRow → LeaseRow
ended v r = record r { released_at = v }

pub none_active :
    (id : Text) (v : ℕ) (rows : List LeaseRow)
    → 0 < v
    → find? (has_lease id) (update_where (has_id id) (ended v) rows) ≡ none
unfolding update_where
none_active id v [] pos = refl
none_active id v (r ∷ rows) pos = ground (arith, none_active id v rows pos)

All-in_state :
    (id : Text) (to : DeviceState) (rows : List DeviceRow)
    → All
        (λ d. (has_device id d ≡ false) ⊎ (d.state ≡ to))
        (update_where (has_device id) (with_state to) rows)
unfolding update_where
All-in_state id to [] = tt
All-in_state id to (r ∷ rows) = elim (Bool-cases (has_device id r)) [
  | inl hit ↦ rw (hit, update_where) (inr refl, All-in_state id to rows)
  | inr miss ↦ rw (miss, update_where) (inl miss, All-in_state id to rows)
]

-- An update of the rows with another id is not seen by a search for this one.
pub find_other :
    (id other : Text) (f : LeaseRow → LeaseRow) (rows : List LeaseRow)
    → text_eq id other ≡ false
    → ((r : LeaseRow) → (f r).id ≡ r.id)
    → find? (has_lease other) (update_where (has_id id) f rows) ≡ find? (has_lease other) rows
unfolding update_where
find_other id other f [] ne keep = refl
find_other id other f (r ∷ rows) ne keep = ground (
  arith,
  find_other id other f rows ne keep,
  keep r,
  text_eq_iff r.id id,
  text_eq_iff r.id other,
  text_eq_iff id other,
)

pub released_rows :
    (id : Text) (now : Time) (db db' : Db) (dev : Text)
    → release id now db ≡ (ok dev, db')
    → db'.tables ≡ reset_device dev (end_lease id now db.tables)
unfolding release
released_rows id now db db' dev e = ground arith

-- A lease that was released after second 0 of 1970 cannot be released again, the devices of its id
-- are resetting, and a lease of another id is found as before.
pub release-ends :
    (id other : Text) (now later : Time) (db db' : Db) (dev : Text)
    → 0 < unix now
    → text_eq id other ≡ false
    → release id now db ≡ (ok dev, db')
    → (release id later (healthy db'.tables) ≡ (err not_found, healthy db'.tables))
      × All (λ d. (has_device dev d ≡ false) ⊎ (d.state ≡ resetting)) db'.devices
      × ((get_lease other (healthy db'.tables)).0 ≡ (get_lease other (healthy db.tables)).0)
unfolding release reset_device end_lease get_lease fails later_faults
release-ends id other now later db db' dev pos ne e =
    let t = released_rows id now db db' dev e in
    let gone = none_active id (unix now) db.leases pos in
    (
      rw t (ground (arith, gone)),
      rw t (All-in_state dev resetting db.devices),
      rw t (ground (arith, find_other id other (ended (unix now)) db.leases ne (λ r. refl))),
    )
