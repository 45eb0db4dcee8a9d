-- ===== src/Store/Claim.antt =====
-- What `Claim` of internal/store/store.go does: who gets which device, and when nobody does.
use droidpool.Prelude.{
  ◌≡◌, refl, sym, ap, ◌≢◌, ◌⊎◌, Option-cases, inl, inr, Bool, true, false, ◌&&◌, ◌||◌, ◌∷◌, none,
  some, arith, is_some, any, text_eq_refl,
}
use droidpool.Exec.{ok, err, no_free_device, is_ok}
use droidpool.Pool.State.{ready, leased, state_eq}
use droidpool.Pool.Time.{Time}
use droidpool.Pool.Lease.{Lease}
use droidpool.Store.Tables.{
  DeviceRow, LeaseRow, has_device, update_where, scan_lease, order_by, by_id, holds, is_for,
}
use droidpool.Store.Rows.{any-update, any-order, find-any, find-some, find-none}
use droidpool.Store.Sql.{Tables, Db, healthy, fails, later_faults}
use droidpool.Store.Devices.{with_state}
use droidpool.Store.Leases.{
  claim, take_device, find_for, first_free, is_free, granted, lease_row, lease_device, is_refused,
  has_id,
}

-- A worktree that holds a lease gets that lease again, and no row changes.
pub claim-reuses :
    (l : Lease) (now : Time) (t : Tables) (r : LeaseRow)
    → find_for l.host l.worktree t ≡ some r
    → claim l now (healthy t) ≡ (ok (scan_lease r, true), healthy t)
unfolding claim fails later_faults
claim-reuses l now t r h = ground arith

-- A new worktree is turned away exactly if no device is free, and no row changes.
pub claim-exhausted :
    (l : Lease) (now : Time) (t : Tables)
    → find_for l.host l.worktree t ≡ none
    → first_free t ≡ none
    → claim l now (healthy t) ≡ (err no_free_device, healthy t)
unfolding claim take_device fails later_faults
claim-exhausted l now t h k = ground arith

-- The tables after a lease of `d`.
unfoldable pub after_claim : Lease → Time → DeviceRow → Tables → Tables
unfolding lease_row granted
after_claim l now d t = record {
  devices = update_where (has_device d.id) (with_state leased) t.devices;
  leases = lease_row (granted l d.id now) now ∷ t.leases;
}

not-is_refused :
    (l : Lease) (now : Time) (t : Tables) (d : DeviceRow)
    → find_for l.host l.worktree t ≡ none
    → first_free t ≡ some d
    → any (has_id l.id) t.leases ≡ false
    → is_refused (lease_row (granted l d.id now) now) (lease_device d.id t) ≡ false
unfolding is_refused lease_row granted lease_device first_free find_for is_free
not-is_refused l now t d h k fresh =
    let free = find-some (is_free t.leases) (order_by by_id t.devices) d k in
    let listed =
      find-any (is_free t.leases) (has_device d.id) (order_by by_id t.devices) d k
        (text_eq_refl d.id) in
    ground (
      arith,
      free,
      listed,
      any-order (has_device d.id) by_id t.devices,
      any-update (has_device d.id) (has_device d.id) (with_state leased) t.devices (λ r. refl),
      find-none (is_for l.host l.worktree) t.leases h,
    )

-- A new worktree gets the free device of least id under the id of its request.
pub claim-grants :
    (l : Lease) (now : Time) (t : Tables) (d : DeviceRow)
    → find_for l.host l.worktree t ≡ none
    → first_free t ≡ some d
    → any (has_id l.id) t.leases ≡ false
    → claim l now (healthy t) ≡ (ok (granted l d.id now, false), healthy (after_claim l now d t))
unfolding claim take_device fails later_faults after_claim lease_device
claim-grants l now t d h k fresh = ground (arith, not-is_refused l now t d h k fresh)

-- The device that a claim would take: it is ready, it is held by nobody, and it is in the table.
pub first_free-free :
    (t : Tables) (d : DeviceRow)
    → first_free t ≡ some d
    → (d.state ≡ ready)
      × (any (holds d.id) t.leases ≡ false)
      × (any (has_device d.id) t.devices ≡ true)
unfolding first_free is_free
first_free-free t d k =
    let free = find-some (is_free t.leases) (order_by by_id t.devices) d k in
    let listed =
      find-any (is_free t.leases) (has_device d.id) (order_by by_id t.devices) d k
        (text_eq_refl d.id) in
    ground (arith, free, listed, any-order (has_device d.id) by_id t.devices)

-- Nobody is free, if the search for the first free device fails.
pub first_free-none : (t : Tables) → first_free t ≡ none → any (is_free t.leases) t.devices ≡ false
unfolding first_free
first_free-none t k =
    let none_in_order = find-none (is_free t.leases) (order_by by_id t.devices) k in
    ground (arith, none_in_order, any-order (is_free t.leases) by_id t.devices)

pub some_free :
    (t : Tables) (d : DeviceRow) → first_free t ≡ some d → any (is_free t.leases) t.devices ≡ true
unfolding first_free
some_free t d k =
    let found = find-some (is_free t.leases) (order_by by_id t.devices) d k in
    ground (arith, found, any-order (is_free t.leases) by_id t.devices)

granted_device :
    (l : Lease) (now : Time) (db db' : Db) (got : Lease) (d : DeviceRow)
    → first_free db.tables ≡ some d
    → claim l now db ≡ (ok (got, false), db')
    → (got ≡ granted l d.id now) × (db'.tables ≡ after_claim l now d db.tables)
unfolding claim take_device after_claim lease_device
granted_device l now db db' got d k e = ground arith

not_granted :
    (l : Lease) (now : Time) (db db' : Db) (got : Lease)
    → first_free db.tables ≡ none
    → claim l now db ≢ (ok (got, false), db')
unfolding claim take_device
not_granted l now db db' got k e = ground arith

-- A claim that is answered with a new lease, whatever statements fail around it, took a device
-- that was ready and had no active lease, added this one lease, under the id of the request, to
-- those there were, and the worktree is found to hold it from then on.
pub claim-exclusive :
    (l : Lease) (now : Time) (db db' : Db) (got : Lease)
    → claim l now db ≡ (ok (got, false), db')
    → (any (holds got.device_id) db.leases ≡ false)
      × (any (λ d. has_device got.device_id d && state_eq d.state ready) db.devices ≡ true)
      × (db'.leases ≡ lease_row got now ∷ db.leases)
      × (find_for l.host l.worktree db'.tables ≡ some (lease_row got now))
      × (got.id ≡ l.id)
unfolding granted first_free after_claim lease_row find_for
claim-exclusive l now db db' got e = elim (Option-cases (first_free db.tables)) [
  | inl k ↦ absurd (not_granted l now db db' got k e)
  | inr (d, k) ↦
      let free = first_free-free db.tables d k in
      let (g, t) = granted_device l now db db' got d k e in
      let was_ready =
        find-any (is_free db.leases) (λ x. has_device d.id x && state_eq x.state ready)
          (order_by by_id db.devices) d k (ground (arith, text_eq_refl d.id)) in
      ground (
        arith,
        free,
        g,
        t,
        ap (λ (x : Tables). x.leases) t,
        was_ready,
        any-order (λ (x : DeviceRow). has_device d.id x && state_eq x.state ready) by_id db.devices,
        text_eq_refl l.host,
        text_eq_refl l.worktree,
      )
]

reused_row :
    (l : Lease) (now : Time) (db db' : Db) (got : Lease)
    → claim l now db ≡ (ok (got, true), db')
    → (r : LeaseRow) × (find_for l.host l.worktree db.tables ≡ some r)
      × (got ≡ scan_lease r)
      × (db'.tables ≡ db.tables)
unfolding claim take_device find_for
reused_row l now db db' got e = elim (Option-cases (find_for l.host l.worktree db.tables)) [
  | inl f ↦ absurd (ground (arith, f))
  | inr (r, f) ↦ (r, f, ground (arith, f), ground (arith, f))
]

-- Claiming again for the same host and worktree after a claim that succeeded, on a healthy
-- database, gives the same lease on the same device, says that it is not new, and changes nothing.
pub claim-idempotent :
    (l m : Lease) (now later : Time) (db db' : Db) (got : Lease) (reused : Bool)
    → claim l now db ≡ (ok (got, reused), db')
    → m.host ≡ l.host
    → m.worktree ≡ l.worktree
    → (again : Lease) × (claim m later (healthy db'.tables)
        ≡ (ok (again, true), healthy db'.tables))
      × (again.id ≡ got.id)
      × (again.device_id ≡ got.device_id)
claim-idempotent l m now later db db' got true e h w =
    let (r, f, g, t) = reused_row l now db db' got e in
    (
      scan_lease r,
      claim-reuses m later db'.tables r (rw (h, w, t) f),
      unfold scan_lease in ap (λ (x : Lease). x.id) (sym g),
      unfold scan_lease in ap (λ (x : Lease). x.device_id) (sym g),
    )
claim-idempotent l m now later db db' got false e h w =
    let (_, _, _, found, _) = claim-exclusive l now db db' got e in
    (
      scan_lease (lease_row got now),
      claim-reuses m later db'.tables (lease_row got now) (rw (h, w) found),
      unfold scan_lease lease_row in refl,
      unfold scan_lease lease_row in refl,
    )

-- On a healthy database and under a new lease id, a claim succeeds exactly if its worktree holds a
-- lease or a device is ready and unheld; and it succeeds or no row has changed.
pub claim-total :
    (l : Lease) (now : Time) (t : Tables)
    → any (has_id l.id) t.leases ≡ false
    → (is_ok (claim l now (healthy t)).0
        ≡ (is_some (find_for l.host l.worktree t) || any (is_free t.leases) t.devices))
      × ((is_ok (claim l now (healthy t)).0 ≡ true) ⊎ ((claim l now (healthy t)).1 ≡ healthy t))
claim-total l now t fresh = elim (Option-cases (find_for l.host l.worktree t)) [
  | inr (r, f) ↦
      (ground (arith, claim-reuses l now t r f), inl (ground (arith, claim-reuses l now t r f)))
  | inl f ↦ elim (Option-cases (first_free t)) [
    | inr (d, k) ↦ (
      ground (arith, claim-grants l now t d f k fresh, some_free t d k),
      inl (ground (arith, claim-grants l now t d f k fresh)),
    )
    | inl k ↦ (
      ground (arith, claim-exhausted l now t f k, first_free-none t k),
      inr (ground (arith, claim-exhausted l now t f k)),
    )
  ]
]
