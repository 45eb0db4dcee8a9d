-- ===== src/Manager/Reset.antt =====
-- What `Reset` of internal/pool/manager.go guarantees, on its success and on its failures.
use droidpool.Prelude.{
  ℕ, ◌≡◌, refl, ap, ◌∙◌, ◌⊎◌, inl, inr, List, ◌∷◌, none, some, Text, arith, Option-cases, find?,
  text_eq_iff, subst,
}
use droidpool.Exec.{Error, ok, err, driver_failed, bad_device_id, Result-cases, not_found}
use droidpool.Pool.State.{DeviceState, ready, broken}
use droidpool.Pool.Lease.{Device}
use droidpool.Store.Sql.{Tables, Db, fails, healthy, later_faults}
use droidpool.Store.Rows.{find-some}
use droidpool.Store.Tables.{DeviceRow, has_device, scan_device, device_row}
use droidpool.Store.Upsert.{upsert_row_self}
use droidpool.Store.Devices.{upsert_device, upsert_row, get_device}
use droidpool.Manager.World.{
  World, Sys, Manager, DriverCall, creates, removes, wipes, waits_boot, effective_identity,
  boot_timeout,
}
use droidpool.Manager.Index.{port, index_of, index_of-error}
use droidpool.Manager.Rebuild.{rebuild, reset, mark_broken}
use droidpool.Manager.Keeps.{db-apply_device_settings}
use droidpool.Manager.Clean.{WasRebuilt, rebuild-WasRebuilt}

-- The device `id` is in the table, in this state and with this many failed health checks.
abbrev pub IsInState : List DeviceRow → Text → DeviceState → ℕ → Type 0
IsInState rows id st fails =
    (row : DeviceRow) × (find? (has_device id) rows ≡ some row)
    × (row.state ≡ st)
    × (row.health_fails ≡ fails)

-- The device that `GetDevice` gives has the id that was asked for.
pub id-get_device :
    (id : Text) (db db' : Db) (d : Device)
    → get_device id db ≡ (ok d, db')
    → (d.id ≡ id) × (db'.tables ≡ db.tables)
unfolding get_device scan_device
id-get_device id db db' d e = elim (Option-cases (find? (has_device id) db.devices)) [
  | inl k ↦ absurd (ground (arith, k))
  | inr (row, k) ↦
      ground (arith, k, find-some (has_device id) db.devices row k, text_eq_iff row.id id)
]

-- It is the row that is found under this id.
pub row-get_device :
    (id : Text) (db db' : Db) (d : Device)
    → get_device id db ≡ (ok d, db')
    → (row : DeviceRow) × (find? (has_device id) db.devices ≡ some row) × (d ≡ scan_device row)
unfolding get_device
row-get_device id db db' d e = elim (Option-cases (find? (has_device id) db.devices)) [
  | inl k ↦ absurd (ground (arith, k))
  | inr (row, k) ↦ (row, k, ground (arith, k))
]

upserted-IsInState :
    (d : Device) (db db' : Db)
    → upsert_device d db ≡ (ok tt, db')
    → IsInState db'.devices d.id d.state d.health_fails
unfolding upsert_device
upserted-IsInState d db db' e =
    let (row, f, st, hf) = upsert_row_self d db.devices in (row, ground (arith, f), st, hf)

module _ (w : World) (m : Manager) where
  -- The parts of a reset that succeeds.
  pub reset_parts :
      (id : Text) (s s' : Sys)
      → reset w m id s ≡ (ok tt, s')
      → (d : Device) × (got : Db) × (built : Sys) × (up : Device) × (get_device id s.db
          ≡ (ok d, got))
        × (rebuild w m d (record s { db = got }) ≡ (ok tt, built))
        × (upsert_device up built.db ≡ (ok tt, s'.db))
        × (up ≡ record d { state = ready; last_healthy = w.clock built.calls; health_fails = 0 })
  unfolding reset
  reset_parts id s s' e = elim (Result-cases (get_device id s.db).0) [
    | inr (x, g) ↦ absurd (ground (arith, g))
    | inl (d, g) ↦
        let got = (get_device id s.db).1 in
        let r = rebuild w m d (record s { db = got }) in
        elim (Result-cases r.0) [
          | inr (x, k) ↦ absurd (ground (arith, g, k))
          | inl (u, k) ↦ (
            d,
            got,
            r.1,
            record d { state = ready; last_healthy = w.clock r.1.calls; health_fails = 0 },
            ground (arith, g),
            ground (arith, k),
            ground (arith, g, k),
            refl,
          )
        ]
  ]

  -- A reset that succeeds has had the node wipe the device's data, create its container and boot
  -- it, in this order and each with success, and puts the device back as ready with no failed
  -- check.
  pub reset-cleans :
      (id : Text) (s s' : Sys)
      → reset w m id s ≡ (ok tt, s')
      → ((d : Device) × (i : ℕ) × (d.id ≡ id) × (index_of m id ≡ ok i) × WasRebuilt w m d i s.calls)
        × IsInState s'.devices id ready 0
  reset-cleans id s s' e =
      let (d, got, built, up, g, k, u, eq) = reset_parts id s s' e in
      let (same, _) = id-get_device id s.db got d g in
      let (i, n, was) = rebuild-WasRebuilt w m d (record s { db = got }) built k in
      let (row, f, st, hf) = upserted-IsInState up built.db s'.db u in
      let up_id : up.id ≡ id = ap (λ (x : Device). x.id) eq ∙ same in
      (
        (d, i, same, subst (λ j. index_of m j ≡ ok i) same n, was),
        (
          row,
          subst (λ j. find? (has_device j) s'.devices ≡ some row) up_id f,
          st ∙ ap (λ (x : Device). x.state) eq,
          hf ∙ ap (λ (x : Device). x.health_fails) eq,
        ),
      )

  failed_rebuild :
      (d : Device) (t : Tables) (calls : List DriverCall) (s' : Sys) (e : Error)
      → rebuild w m d (record { db = healthy t; calls = calls }) ≡ (err e, s')
      → ((index_of m d.id ≡ err bad_device_id) × (s' ≡ record { db = healthy t; calls = calls }))
        ⊎ ((e ≡ driver_failed)
            × (s'.devices ≡ upsert_row (device_row (record d { state = broken })) t.devices))
  unfolding rebuild mark_broken upsert_device fails later_faults
  failed_rebuild d t calls s' e h = elim (Result-cases (index_of m d.id)) [
    | inl (i, n) ↦ inr (ground (arith, n), ground (arith, n))
    | inr (x, n) ↦ inl (rw n (ap err (index_of-error m d.id x n)), ground (arith, n))
  ]

  rebuilt_db :
      (d : Device) (t : Tables) (calls : List DriverCall) (s' : Sys)
      → rebuild w m d (record { db = healthy t; calls = calls }) ≡ (ok tt, s')
      → s'.db ≡ healthy t
  unfolding rebuild mark_broken upsert_device fails later_faults
  rebuilt_db d t calls s' h = elim (Result-cases (index_of m d.id)) [
    | inr (x, n) ↦ absurd (ground (arith, n))
    | inl (i, n) ↦
        let removed = removes d.id ∷ calls in
        let wiped = wipes d.id m.overlay_base ∷ removed in
        let created = creates d.id (port m i) m.overlay_base (effective_identity m d) ∷ wiped in
        ground (
          arith,
          n,
          db-apply_device_settings w m d.id t (waits_boot d.id (boot_timeout m) ∷ created),
        )
  ]

  -- What is left of a failed rebuild, in terms of the id.
  failed_parts :
      (d : Device) (id : Text) (t : Tables) (calls : List DriverCall) (s' : Sys) (e : Error)
      → d.id ≡ id
      → rebuild w m d (record { db = healthy t; calls = calls }) ≡ (err e, s')
      → ((index_of m id ≡ err bad_device_id) × (s'.tables ≡ t))
        ⊎ ((e ≡ driver_failed) × ((n : ℕ) × IsInState s'.devices id broken n))
  failed_parts d id t calls s' e same h = elim (failed_rebuild d t calls s' e h) [
    | inl (n, r) ↦
        inl (subst (λ j. index_of m j ≡ err bad_device_id) same n, ap (λ (x : Sys). x.tables) r)
    | inr (f, r) ↦
        let d' = record d { state = broken } in
        let (row, found, st, hf) = upsert_row_self d' t.devices in
        let here : find? (has_device d.id) s'.devices ≡ some row = rw r found in
        inr (
          f,
          (
            d.health_fails,
            (row, subst (λ j. find? (has_device j) s'.devices ≡ some row) same here, st, hf),
          ),
        )
  ]

  -- A reset that fails on a healthy database either finds no device or no number in its id and
  -- changes no row, or the driver failed and the device is marked as broken.
  pub reset-fails :
      (id : Text) (t : Tables) (calls : List DriverCall) (s' : Sys) (e : Error)
      → reset w m id (record { db = healthy t; calls = calls }) ≡ (err e, s')
      → (((e ≡ not_found) × (find? (has_device id) t.devices ≡ none) × (s'.tables ≡ t))
          ⊎ ((index_of m id ≡ err bad_device_id) × (s'.tables ≡ t)))
        ⊎ ((e ≡ driver_failed) × ((n : ℕ) × IsInState s'.devices id broken n))
  unfolding reset get_device upsert_device scan_device fails later_faults
  reset-fails id t calls s' e h = elim (Option-cases (find? (has_device id) t.devices)) [
    | inl k ↦ inl (inl (ground (arith, k), k, ground (arith, k)))
    | inr (row, k) ↦
        let d = scan_device row in
        let same : d.id ≡ id =
          ground (arith, find-some (has_device id) t.devices row k, text_eq_iff row.id id) in
        let r = rebuild w m d (record { db = healthy t; calls = calls }) in
        elim (Result-cases r.0) [
          | inl (u, b) ↦ absurd (ground (arith, k, b, rebuilt_db d t calls r.1 (ground (arith, b))))
          | inr (x, b) ↦
              let parts = failed_parts d id t calls s' e same (ground (arith, k, b)) in
              elim parts [ inl p ↦ inl (inr p) | inr p ↦ inr p ]
        ]
  ]
