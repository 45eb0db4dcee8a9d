-- ===== src/Api/Settings/Stored.antt =====
-- What an answer of the settings handlers of internal/api/api.go promises, with the manager's setters.
use droidpool.Prelude.{
  ◌≡◌, refl, ◌⊎◌, inl, inr, Bool, true, ◌∷◌, Option, none, some, Text, arith, find?, Option-cases,
  Bool-cases,
}
use droidpool.Exec.{ok, Result-cases}
use droidpool.Store.Tables.{DeviceRow, has_device}
use droidpool.Store.Rows.{find-update, find-some, find-none}
use droidpool.Store.Sql.{Db, fails}
use droidpool.Store.Devices.{get_device, update_device, set_device_egress}
use droidpool.Manager.World.{World, Sys, Manager, sets_egress}
use droidpool.Manager.Settings.{set_egress}
use droidpool.Api.Urls.{validate_proxy, validate_rtsp, mask_url_credentials}
use droidpool.Api.Settings.{
  Panel, Change, Setter, Refusal, unavailable, not_json, invalid, refusal_of, refused, changed,
  egress, camera, handle_set_egress, handle_set_camera,
}

-- An update of a device that succeeds has put the new columns into the row that is found.
update_device-found :
    (id : Text) (f : DeviceRow → DeviceRow) (db db' : Db)
    → ((r : DeviceRow) → (f r).id ≡ r.id)
    → update_device id f db ≡ (ok tt, db')
    → (old : DeviceRow) × (find? (has_device id) db'.devices ≡ some (f old))
unfolding update_device
update_device-found id f db db' keep e = elim (Bool-cases (fails db)) [
  | inl bad ↦ absurd (ground (arith, bad))
  | inr good ↦ elim (Option-cases (find? (has_device id) db.devices)) [
    | inl missing ↦
        absurd (ground (arith, good, missing, find-none (has_device id) db.devices missing))
    | inr (old, there) ↦
        let found =
          find-update (has_device id) (has_device id) f db.devices old (λ x. rw (keep x) refl)
            there in
        let (hit, any_hit) = find-some (has_device id) db.devices old there in
        (old, ground (arith, good, any_hit, found, hit))
  ]
]

module _ (w : World) (m : Manager) where
  set_egress-done :
      (id proxy : Text) (s s' : Sys)
      → set_egress w m id proxy s ≡ (ok tt, s')
      → (w.answers (sets_egress id proxy ∷ s.calls) ≡ true)
        × ((row : DeviceRow) × (find? (has_device id) s'.devices ≡ some row)
            × (row.egress_proxy ≡ proxy))
  unfolding set_egress set_device_egress
  set_egress-done id proxy s s' e = elim (Result-cases (get_device id s.db).0) [
    | inr (x, g) ↦ absurd (ground (arith, g))
    | inl (d, g) ↦ elim (Bool-cases (w.answers (sets_egress id proxy ∷ s.calls))) [
      | inr no_answer ↦ absurd (ground (arith, g, no_answer))
      | inl yes_answer ↦
          let put = λ (r : DeviceRow). record r { egress_proxy = proxy } in
          let (old, found) =
            update_device-found id put (get_device id s.db).1 s'.db (λ r. refl)
              (ground (arith, g, yes_answer)) in
          (yes_answer, (put old, found, refl))
    ]
  ]

  -- A change of egress that is answered as made, with the manager's setter, was asked for with an
  -- address that passes the check, the node has made it, and the device's row has it.
  pub handle_set_egress-stores :
      (splits : Text → Bool) (trim : Text → Text) (id proxy : Text) (p p' : Panel) (c : Change)
      → handle_set_egress splits trim (some (set_egress w m)) id (some proxy) p ≡ (changed c, p')
      → (validate_proxy splits (trim proxy) ≡ none)
        × (w.answers (sets_egress id (trim proxy) ∷ p.calls) ≡ true)
        × (c ≡ egress id (trim proxy))
        × ((row : DeviceRow) × (find? (has_device id) p'.devices ≡ some row)
            × (row.egress_proxy ≡ trim proxy))
  unfolding handle_set_egress
  handle_set_egress-stores splits trim id proxy p p' c e =
      elim (Option-cases (validate_proxy splits (trim proxy))) [
        | inr (x, bad) ↦ absurd (ground (arith, bad))
        | inl good ↦ elim (Result-cases (set_egress w m id (trim proxy) p.sys).0) [
          | inr (x, k) ↦ absurd (ground (arith, good, k))
          | inl (u, k) ↦
              let (answered, stored) =
                set_egress-done id (trim proxy) p.sys p'.sys (ground (arith, good, k, e)) in
              (good, answered, ground (arith, good, k), stored)
        ]
      ]

-- A camera request that is refused publishes nothing; one that is not was for a valid address, and
-- is published and answered once, with the credentials of the address masked, whatever setter
-- there is.
pub handle_set_camera-masks :
    (trim : Text → Text) (set : Option Setter) (id : Text) (body : Option Text) (p : Panel)
    → ((x : Refusal) × ((handle_set_camera trim set id body p).0 ≡ refused x)
        × ((handle_set_camera trim set id body p).1.published ≡ p.published))
      ⊎ ((rtsp : Text) × (body ≡ some rtsp)
          × (validate_rtsp (trim rtsp) ≡ none)
          × ((handle_set_camera trim set id body p).0
              ≡ changed (camera id (mask_url_credentials (trim rtsp))))
          × ((handle_set_camera trim set id body p).1.published
              ≡ camera id (mask_url_credentials (trim rtsp)) ∷ p.published))
unfolding handle_set_camera
handle_set_camera-masks trim none id body p = inl (unavailable, refl, refl)
handle_set_camera-masks trim (some set) id none p = inl (not_json, refl, refl)
handle_set_camera-masks trim (some set) id (some rtsp) p =
    elim (Option-cases (validate_rtsp (trim rtsp))) [
      | inr (x, bad) ↦ inl (invalid, ground (arith, bad), ground (arith, bad))
      | inl good ↦ elim (Result-cases (set id (trim rtsp) p.sys).0) [
        | inr (x, k) ↦ inl (refusal_of x, ground (arith, good, k), ground (arith, good, k))
        | inl (u, k) ↦ inr (rtsp, refl, good, ground (arith, good, k), ground (arith, good, k))
      ]
    ]
