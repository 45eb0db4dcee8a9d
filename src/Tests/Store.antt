-- ===== src/Tests/Store.antt =====
-- The store on the pool of the tests.
use droidpool.Prelude.{
  ◌≡◌, refl, ◌⊎◌, true, false, ◌&&◌, ◌||◌, List, [], ◌∷◌, some, codes, text_eq, text_le, any, find?,
  All, is_some, arith,
}
use droidpool.Exec.{ok, err, is_ok, not_found, Exec, raise, ◌>>◌}
use droidpool.Pool.State.{ready, leased, state_eq}
use droidpool.Pool.Time.{unix, from_unix}
use droidpool.Pool.Lease.{Device, Lease}
use droidpool.Store.Tables.{
  update_where, order_by, insert_by, scan_lease, scan_device, has_device, holds,
}
use droidpool.Store.Sql.{Db, healthy, fails, later_faults, transaction, exec}
use droidpool.Store.Consistency.{IsConsistent}
use droidpool.Store.Leases.{
  claim, take_device, find_for, first_free, is_free, granted, lease_row, lease_device, is_refused,
  has_id, release, end_lease, reset_device,
}
use droidpool.Store.Claim.{claim-exclusive, claim-idempotent, claim-total, after_claim}
use droidpool.Store.History.{
  Call, claims, releases, IsTimely, perform_all, perform_all-IsConsistent,
}
use droidpool.Tests.Data.{now, later, idle_row, pool, asked}

abbrev got : Lease
got = granted asked idle_row.id now

abbrev then_held : Db
then_held = healthy (after_claim asked now idle_row pool)

claimed : claim asked now (healthy pool) ≡ (ok (got, false), then_held)
unfolding claim take_device find_for first_free is_free granted lease_row lease_device is_refused
    update_where order_by insert_by scan_lease unix from_unix text_eq text_le fails later_faults
    after_claim
claimed = refl

claim-exclusive_example :
    (any (holds got.device_id) pool.leases ≡ false)
    × (any (λ d. has_device got.device_id d && state_eq d.state ready) pool.devices ≡ true)
    × (then_held.leases ≡ lease_row got now ∷ pool.leases)
    × (find_for asked.host asked.worktree then_held.tables ≡ some (lease_row got now))
    × (got.id ≡ asked.id)
claim-exclusive_example = claim-exclusive asked now (healthy pool) then_held got claimed

claim-idempotent_example :
    (again : Lease) × (claim asked later (healthy then_held.tables)
      ≡ (ok (again, true), healthy then_held.tables))
    × (again.id ≡ got.id)
    × (again.device_id ≡ got.device_id)
claim-idempotent_example =
    claim-idempotent asked asked now later (healthy pool) then_held got false claimed refl refl

pub is_new : any (has_id asked.id) pool.leases ≡ false
unfolding text_eq
is_new = refl

claim-total_example :
    (is_ok (claim asked now (healthy pool)).0 ≡ (
      is_some (find_for asked.host asked.worktree pool) || any (is_free pool.leases) pool.devices))
    × ((is_ok (claim asked now (healthy pool)).0 ≡ true)
        ⊎ ((claim asked now (healthy pool)).1 ≡ healthy pool))
claim-total_example = claim-total asked now pool is_new

pub pool-IsConsistent : IsConsistent pool
unfolding text_eq
pool-IsConsistent = record {
  device_ids = (refl, (refl, tt));
  lease_ids = (refl, tt);
  one_lease_each = (refl, tt);
  one_per_worktree = (refl, tt);
  known = (refl, tt);
}

abbrev history : List Call
history =
    claims asked now
    ∷ releases (codes "a") later
    ∷ releases (codes "b") later
    ∷ claims asked later
    ∷ []

history-IsTimely : All IsTimely history
unfolding unix
history-IsTimely = (tt, (omega arith, (omega arith, (tt, tt))))

perform_all-IsConsistent_example :
    IsConsistent (perform_all history (record { tables = pool; faults = false ∷ true ∷ [] })).tables
perform_all-IsConsistent_example =
    perform_all-IsConsistent history (record { tables = pool; faults = false ∷ true ∷ [] })
      history-IsTimely pool-IsConsistent

abbrev let_go : Db
let_go = healthy (reset_device (codes "n-2") (end_lease (codes "a") now pool))

has_let_go : release (codes "a") now (healthy pool) ≡ (ok (codes "n-2"), let_go)
unfolding release end_lease reset_device update_where text_eq fails later_faults
has_let_go = refl

-- A transaction that leases a device and then gives up.
abbrev abandoned : Exec Db (Unit {0})
abandoned = exec (lease_device (codes "n-1")) >> raise not_found

abbrev undone : Db
undone = (transaction abandoned (healthy pool)).1

gives_up : transaction abandoned (healthy pool) ≡ (err not_found, undone)
unfolding fails later_faults
gives_up = refl

abbrev seen : Device
seen = record (scan_device idle_row) { state = leased; egress_proxy = [] }

found_idle : find? (has_device (codes "n-1")) pool.devices ≡ some idle_row
unfolding text_eq
found_idle = refl
