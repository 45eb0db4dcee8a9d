-- ===== src/Store/Upsert.antt =====
-- What `UpsertDevice` of internal/store/store.go, which every health check runs, leaves alone.
use droidpool.Prelude.{
  ◌≡◌, refl, ap, ◌⊎◌, inl, inr, true, false, List, [], ◌∷◌, some, arith, if◌then◌else◌, any, find?,
  Text, text_eq, text_eq_refl, text_eq_iff, Bool-cases,
}
use droidpool.Pool.Lease.{Device}
use droidpool.Store.Tables.{DeviceRow, device_row, has_device, update_where}
use droidpool.Store.Rows.{find-update, find-some}
use droidpool.Store.Sql.{Db, fails}
use droidpool.Store.Devices.{upsert_device, upsert_row, overwrite}

-- The columns that an operator sets, and the creation time.
abbrev pub SameSettings : DeviceRow → DeviceRow → Type 0
SameSettings a b =
    (a.egress_proxy ≡ b.egress_proxy)
    × (a.camera_rtsp ≡ b.camera_rtsp)
    × (a.identity ≡ b.identity)
    × (a.mock_location ≡ b.mock_location)
    × (a.created_at ≡ b.created_at)

-- The row of a device after an upsert of `d`.
abbrev pub upserted : Device → DeviceRow → DeviceRow
upserted d old = if has_device d.id old then overwrite (device_row d) old else old

-- A device that is new to the table is no device of the table.
differs :
    (rows : List DeviceRow) (i j : Text)
    → any (has_device i) rows ≡ false
    → any (has_device j) rows ≡ true
    → text_eq i j ≡ false
differs rows i j none_i some_j = elim (Bool-cases (text_eq i j)) [
  | inl same ↦
      let e : i ≡ j = (text_eq_iff i j).0 same in
      absurd (ground (arith, ap (λ (k : Text). any (has_device k) rows) e))
  | inr ne ↦ ne
]

upsert_row-find :
    (d : Device) (rows : List DeviceRow) (id : Text) (old : DeviceRow)
    → find? (has_device id) rows ≡ some old
    → find? (has_device id) (upsert_row (device_row d) rows) ≡ some (upserted d old)
unfolding upsert_row overwrite device_row
upsert_row-find d rows id old h = elim (Bool-cases (any (has_device d.id) rows)) [
  | inl there ↦
      rw (there, upsert_row)
        (find-update (has_device id) (has_device d.id) (overwrite (device_row d)) rows old
          (λ x. refl) h)
  | inr new ↦
      let found = find-some (has_device id) rows old h in
      rw (new, upsert_row)
        (ground (
          arith,
          h,
          found,
          differs rows d.id id new found.1,
          text_eq_iff old.id id,
          text_eq_iff old.id d.id,
          text_eq_iff d.id id,
        ))
]

find-update_self :
    (d : Device) (rows : List DeviceRow)
    → any (has_device d.id) rows ≡ true
    → (row : DeviceRow) × (find?
          (has_device d.id)
          (update_where (has_device d.id) (overwrite (device_row d)) rows)
        ≡ some row)
      × (row.state ≡ d.state)
      × (row.health_fails ≡ d.health_fails)
unfolding update_where overwrite device_row
find-update_self d [] h = absurd (cc)
find-update_self d (x ∷ rows) h = elim (Bool-cases (has_device d.id x)) [
  | inl hit ↦ (overwrite (device_row d) x, ground (arith, hit), refl, refl)
  | inr miss ↦
      let (row, f, st, hf) = find-update_self d rows (ground (arith, miss)) in
      (row, ground (arith, miss, f), st, hf)
]

-- After an upsert the device is found, with the state and the failure count that were given.
pub upsert_row_self :
    (d : Device) (rows : List DeviceRow)
    → (row : DeviceRow) × (find? (has_device d.id) (upsert_row (device_row d) rows) ≡ some row)
      × (row.state ≡ d.state)
      × (row.health_fails ≡ d.health_fails)
unfolding upsert_row device_row overwrite
upsert_row_self d rows = elim (Bool-cases (any (has_device d.id) rows)) [
  | inl there ↦
      let (row, f, st, hf) = find-update_self d rows there in
      (row, rw (there, upsert_row) f, st, hf)
  | inr new ↦ (device_row d, ground (arith, new, text_eq_refl d.id), refl, refl)
]

-- An upsert of any device keeps the egress, camera, identity and location columns and the creation
-- time of every device in the table, and the whole row of every other device.
pub upsert_device-keeps_settings :
    (d : Device) (db : Db) (id : Text) (old : DeviceRow)
    → find? (has_device id) db.devices ≡ some old
    → (new : DeviceRow) × (find? (has_device id) (upsert_device d db).1.devices ≡ some new)
      × SameSettings new old
      × ((text_eq old.id d.id ≡ true) ⊎ (new ≡ old))
unfolding upsert_device
upsert_device-keeps_settings d db id old h = elim (Bool-cases (fails db)) [
  | inl bad ↦ (old, rw (bad, h), ground arith, inr refl)
  | inr good ↦ (
    upserted d old,
    rw good (upsert_row-find d db.devices id old h),
    unfold overwrite device_row in ground arith,
    unfold overwrite device_row in
        elim (Bool-cases (text_eq old.id d.id)) [
          | inl this ↦ inl this
          | inr another ↦ inr (ground (arith, another))
        ],
  )
]
