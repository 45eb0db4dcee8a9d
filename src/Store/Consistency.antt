-- ===== src/Store/Consistency.antt =====
-- What the schema of internal/store/store.go keeps true of the two tables.
use droidpool.Prelude.{
  ◌≡◌, refl, ◌∙◌, inl, inr, Bool, true, false, ◌&&◌, List, ◌∷◌, arith, any, All, text_eq,
  Bool-cases,
}
use droidpool.Store.Tables.{DeviceRow, LeaseRow, is_active, has_device, holds, is_for, update_where}
use droidpool.Store.Rows.{Unique, any-and, any-update, update-Unique, update-All, All-map}
use droidpool.Store.Sql.{Tables}
use droidpool.Store.Devices.{upsert_row, overwrite}
use droidpool.Store.Leases.{is_refused}

abbrev pub same_device : DeviceRow → DeviceRow → Bool
same_device x y = has_device x.id y

abbrev pub same_id : LeaseRow → LeaseRow → Bool
same_id x y = text_eq y.id x.id

abbrev pub share_device : LeaseRow → LeaseRow → Bool
share_device x y = is_active x && holds x.device_id y

abbrev pub share_worktree : LeaseRow → LeaseRow → Bool
share_worktree x y = is_active x && is_for x.host x.worktree y

-- The lease's device is in the table.
abbrev pub IsKnown : List DeviceRow → LeaseRow → Type 0
IsKnown devices r = any (has_device r.device_id) devices ≡ true

pub record IsConsistent (t : Tables) : Type 0 where
  pub device_ids : Unique same_device t.devices
  pub lease_ids : Unique same_id t.leases
  pub one_lease_each : Unique share_device t.leases
  pub one_per_worktree : Unique share_worktree t.leases
  pub known : All (IsKnown t.devices) t.leases

-- An update of devices that keeps their ids.
pub update_devices-IsConsistent :
    (t : Tables) (p : DeviceRow → Bool) (f : DeviceRow → DeviceRow)
    → ((r : DeviceRow) → (f r).id ≡ r.id)
    → IsConsistent t
    → IsConsistent (record t { devices = update_where p f t.devices })
update_devices-IsConsistent t p f keep c = record {
  device_ids =
      update-Unique same_device p f t.devices (λ x y e. rw (keep x) e) (λ x y e. rw (keep y) e)
        c.device_ids;
  lease_ids = c.lease_ids;
  one_lease_each = c.one_lease_each;
  one_per_worktree = c.one_per_worktree;
  known =
      All-map (IsKnown t.devices) (IsKnown (update_where p f t.devices)) t.leases
        (λ r e. any-update (has_device r.device_id) p f t.devices (λ x. rw (keep x) refl) ∙ e)
        c.known;
}

-- The columns that the constraints read.
pub record KeepsKeys (f : LeaseRow → LeaseRow) : Type 0 where
  pub id : (r : LeaseRow) → (f r).id ≡ r.id
  pub device_id : (r : LeaseRow) → (f r).device_id ≡ r.device_id
  pub host : (r : LeaseRow) → (f r).host ≡ r.host
  pub worktree : (r : LeaseRow) → (f r).worktree ≡ r.worktree
  pub active : (r : LeaseRow) → is_active r ≡ false → is_active (f r) ≡ false

pub update_leases-IsConsistent :
    (t : Tables) (p : LeaseRow → Bool) (f : LeaseRow → LeaseRow)
    → KeepsKeys f
    → IsConsistent t
    → IsConsistent (record t { leases = update_where p f t.leases })
update_leases-IsConsistent t p f k c = record {
  device_ids = c.device_ids;
  lease_ids =
      update-Unique same_id p f t.leases (λ x y e. rw (k.id x) e) (λ x y e. rw (k.id y) e)
        c.lease_ids;
  one_lease_each =
      update-Unique share_device p f t.leases (λ x y e. ground (arith, k.device_id x, k.active x))
        (λ x y e. ground (arith, k.device_id y, k.active y)) c.one_lease_each;
  one_per_worktree =
      update-Unique share_worktree p f t.leases
        (λ x y e. ground (arith, k.host x, k.worktree x, k.active x))
        (λ x y e. ground (arith, k.host y, k.worktree y, k.active y)) c.one_per_worktree;
  known = update-All (IsKnown t.devices) p f t.leases (λ x e. rw (k.device_id x) e) c.known;
}

pub upsert_row-IsConsistent :
    (t : Tables) (d : DeviceRow)
    → IsConsistent t
    → IsConsistent (record t { devices = upsert_row d t.devices })
unfolding upsert_row overwrite
upsert_row-IsConsistent t d c = elim (Bool-cases (any (has_device d.id) t.devices)) [
  | inl old ↦
      rw (old, upsert_row)
        (update_devices-IsConsistent t (has_device d.id) (overwrite d) (λ r. refl) c)
  | inr new ↦
      rw (new, upsert_row)
        (record {
          device_ids = (new, c.device_ids);
          lease_ids = c.lease_ids;
          one_lease_each = c.one_lease_each;
          one_per_worktree = c.one_per_worktree;
          known =
              All-map (IsKnown t.devices) (IsKnown (d ∷ t.devices)) t.leases (λ r e. ground arith)
                c.known;
        })
]

-- A row that no constraint refuses keeps the tables consistent.
pub insert-IsConsistent :
    (t : Tables) (r : LeaseRow)
    → is_refused r t ≡ false
    → IsConsistent t
    → IsConsistent (record t { leases = r ∷ t.leases })
unfolding is_refused
insert-IsConsistent t r h c = record {
  device_ids = c.device_ids;
  lease_ids = (ground arith, c.lease_ids);
  one_lease_each =
      (any-and (is_active r) (holds r.device_id) t.leases (ground arith), c.one_lease_each);
  one_per_worktree = (
    any-and (is_active r) (is_for r.host r.worktree) t.leases (ground arith),
    c.one_per_worktree,
  );
  known = (ground arith, c.known);
}
