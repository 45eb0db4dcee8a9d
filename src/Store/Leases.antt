-- ===== src/Store/Leases.antt =====
-- internal/store/store.go: the statements on the table of leases.
use droidpool.Prelude.{
  Bool, true, false, not, ◌&&◌, ◌||◌, List, [], ◌∷◌, Option, none, some, map, leb, if◌then◌else◌,
  any, find?, select, Text, text_eq,
}
use droidpool.Exec.{Exec, pure, raise, or_raise, ◌>>=◌, ◌>>◌, not_found, no_free_device}
use droidpool.Pool.State.{ready, leased, resetting, state_eq}
use droidpool.Pool.Time.{Time, unix}
use droidpool.Pool.Lease.{Lease, EdgeMode, unset, shared}
use droidpool.Store.Tables.{
  DeviceRow, LeaseRow, scan_lease, is_active, has_device, has_lease, holds, is_for, update_where,
  order_by, by_id, by_created_at,
}
use droidpool.Store.Sql.{Tables, Db, query, exec, exec_checked, transaction}
use droidpool.Store.Devices.{with_state}

-- WHERE d.state = 'ready' AND NOT EXISTS (an active lease on d)
unfoldable pub is_free : List LeaseRow → DeviceRow → Bool
is_free leases d = state_eq d.state ready && not (any (holds d.id) leases)

-- ORDER BY d.id LIMIT 1
unfoldable pub first_free : Tables → Option DeviceRow
unfolding is_free order_by
first_free t = find? (is_free t.leases) (order_by by_id t.devices)

abbrev pub or_shared : EdgeMode → EdgeMode
or_shared unset = shared
or_shared m = m

-- The lease as `Claim` completes it.
unfoldable pub granted : Lease → Text → Time → Lease
granted l dev_id now = record l {
  device_id = dev_id;
  last_seen_at = now;
  edge_mode = or_shared l.edge_mode;
}

-- The values of `INSERT INTO leases`.
unfoldable pub lease_row : Lease → Time → LeaseRow
lease_row l now = record {
  id = l.id;
  device_id = l.device_id;
  owner = l.owner;
  host = l.host;
  worktree = l.worktree;
  branch = l.branch;
  head_sha = l.head_sha;
  created_at = unix l.created_at;
  expires_at = unix l.expires_at;
  human_takeover = 0;
  human_note = [];
  edge_mode = l.edge_mode;
  released_at = 0;
  last_seen_at = unix now;
}

-- The primary key, the reference to a device and the two unique indexes over active leases.
unfoldable pub is_refused : LeaseRow → Tables → Bool
is_refused r t =
    any (λ x. text_eq x.id r.id) t.leases
    || not (any (has_device r.device_id) t.devices)
    || any (is_for r.host r.worktree) t.leases
    || any (holds r.device_id) t.leases

unfoldable pub lease_device : Text → Tables → Tables
unfolding update_where
lease_device id t = record t {
  devices = update_where (has_device id) (with_state leased) t.devices;
}

unfoldable pub take_device : Lease → Time → Exec Db (Lease × Bool)
unfolding first_free granted lease_row is_refused lease_device
take_device l now = do
  free ← query first_free
  d ← or_raise free no_free_device
  exec (lease_device d.id)
  let row = lease_row (granted l d.id now) now
  exec_checked (is_refused row) (λ t. record t { leases = row ∷ t.leases })
  pure (granted l d.id now, false)

unfoldable pub find_for : Text → Text → Tables → Option LeaseRow
find_for host worktree t = find? (is_for host worktree) t.leases

unfoldable pub claim : Lease → Time → Exec Db (Lease × Bool)
unfolding take_device scan_lease find_for
claim l now = transaction (do
  existing ← query (find_for l.host l.worktree)
  elim existing [ some r ↦ pure (scan_lease r, true) | none ↦ take_device l now ])

unfoldable pub get_lease : Text → Exec Db Lease
unfolding scan_lease
get_lease id = do
  row ← query (λ t. find? (has_lease id) t.leases)
  found ← or_raise row not_found
  pure (scan_lease found)

unfoldable pub get_lease_by_worktree : Text → Text → Exec Db Lease
unfolding scan_lease find_for
get_lease_by_worktree host worktree = do
  row ← query (find_for host worktree)
  found ← or_raise row not_found
  pure (scan_lease found)

-- WHERE released_at=0 ORDER BY created_at
unfoldable pub list_leases : Exec Db (List Lease)
unfolding scan_lease order_by
list_leases = do
  rows ← query (λ t. order_by by_created_at (select is_active t.leases))
  pure (map scan_lease rows)

unfoldable pub active_leases : Exec Db (List Lease)
unfolding scan_lease order_by
active_leases = do
  rows ← query (λ t. order_by by_created_at (select is_active t.leases))
  pure (map scan_lease rows)

unfoldable pub expired_leases : Time → Exec Db (List Lease)
unfolding scan_lease
expired_leases now = do
  rows ← query (λ t. select (λ r. is_active r && leb r.expires_at (unix now)) t.leases)
  pure (map scan_lease rows)

-- An UPDATE of the active lease `id`, which must affect a row.
unfoldable pub update_lease : Text → (LeaseRow → LeaseRow) → Exec Db (Unit {0})
unfolding update_where
update_lease id f db =
    let found = any (has_lease id) db.leases in
    (do
      exec (λ t. record t { leases = update_where (has_lease id) f t.leases })
      if found then pure tt else raise not_found)
      db

unfoldable pub renew : Text → Time → Exec Db (Unit {0})
unfolding update_lease
renew id new_expiry = update_lease id (λ r. record r { expires_at = unix new_expiry })

unfoldable pub set_human_takeover : Text → Bool → Text → Exec Db (Unit {0})
unfolding update_lease
set_human_takeover id on note =
    update_lease id (λ r. record r { human_takeover = if on then 1 else 0; human_note = note })

unfoldable pub touch : Text → Time → Exec Db (Unit {0})
unfolding update_lease
touch id now = update_lease id (λ r. record r { last_seen_at = unix now })

-- WHERE id=?: the row of this id, active or not.
abbrev pub has_id : Text → LeaseRow → Bool
has_id id r = text_eq r.id id

unfoldable pub end_lease : Text → Time → Tables → Tables
unfolding update_where
end_lease id now t = record t {
  leases = update_where (has_id id) (λ r. record r { released_at = unix now }) t.leases;
}

unfoldable pub reset_device : Text → Tables → Tables
unfolding update_where
reset_device id t = record t {
  devices = update_where (has_device id) (with_state resetting) t.devices;
}

unfoldable pub release : Text → Time → Exec Db Text
unfolding end_lease reset_device
release id now = transaction (do
  row ← query (λ t. find? (has_lease id) t.leases)
  found ← or_raise row not_found
  exec (end_lease id now)
  exec (reset_device found.device_id)
  pure found.device_id)
