-- ===== src/Manager/Renamed.antt =====
-- When `SetIdentity` of internal/pool/manager.go rebuilds a device, and under which identity.
use droidpool.Prelude.{
  refl, none, some, find?, Option-cases, ℕ, ◌≡◌, subst, ◌⊎◌, inl, inr, Bool, true, false, not, ◌||◌,
  Option, Text, arith, Bool-cases,
}
use droidpool.Exec.{ok, Result-cases}
use droidpool.Pool.State.{ready, leased, resetting, state_eq}
use droidpool.Pool.Identity.{Identity, same_identity, normalized, validate}
use droidpool.Store.Sql.{Db}
use droidpool.Store.Tables.{DeviceRow, has_device, scan_device}
use droidpool.Store.Rows.{find-some, find-update}
use droidpool.Manager.Index.{index_of}
use droidpool.Manager.Reset.{id-get_device, row-get_device}
use droidpool.Pool.Lease.{Device}
use droidpool.Store.Devices.{get_device, set_device_identity, set_device_state, update_device}
use droidpool.Manager.World.{World, Sys, Manager, on_db, effective_identity, or_default}
use droidpool.Manager.Rebuild.{unless, rebuild}
use droidpool.Manager.Settings.{set_identity, rebuild_as, checked_identity, is_up}
use droidpool.Manager.Clean.{WasRebuilt, rebuild-WasRebuilt}

-- What is stored for this wish: nothing, or what it is completed to, if that is valid.
abbrev pub IsChosen : Option Identity → Option Identity → Type 0
IsChosen ident stored =
    (ident ≡ none) × (stored ≡ none)
    ⊎ ((i : Identity) × (ident ≡ some i)
        × (validate (normalized i) ≡ none)
        × (stored ≡ some (normalized i)))

checked_identity-IsChosen :
    (ident stored : Option Identity) → checked_identity ident ≡ ok stored → IsChosen ident stored
unfolding checked_identity
checked_identity-IsChosen none stored e = inl (refl, ground (arith, e))
checked_identity-IsChosen (some i) stored e = elim (Option-cases (validate (normalized i))) [
  | inl fine ↦ inr (i, refl, fine, ground (arith, e, fine))
  | inr (x, bad) ↦ absurd (ground (arith, e, bad))
]

set_device_identity-row :
    (id : Text) (stored : Option Identity) (db db' : Db) (row : DeviceRow)
    → set_device_identity id stored db ≡ (ok tt, db')
    → find? (has_device id) db.devices ≡ some row
    → find? (has_device id) db'.devices ≡ some (record row { identity = stored })
unfolding set_device_identity update_device
set_device_identity-row id stored db db' row e found =
    let (hit, _) = find-some (has_device id) db.devices row found in
    let changed =
      find-update (has_device id) (has_device id) (λ r. record r { identity = stored }) db.devices
        row (λ x. refl) found in
    ground (arith, e, hit, changed)

module _ (w : World) (m : Manager) where
  rebuild_as-WasRebuilt :
      (d : Device) (eff eff' : Option Identity) (b : Bool) (s s' : Sys)
      → rebuild_as w m d eff s ≡ (ok (eff', b), s')
      → (b ≡ true)
        × (eff' ≡ eff)
        × ((i : ℕ) × (index_of m d.id ≡ ok i) × WasRebuilt w m d i s.calls)
  unfolding rebuild_as
  rebuild_as-WasRebuilt d eff eff' b s s' e =
      let taken =
        unless (not (state_eq d.state ready)) (on_db (set_device_state d.id resetting)) s in
      let same : taken.1.calls ≡ s.calls = ground arith in
      elim (Result-cases taken.0) [
        | inr (x, k) ↦ absurd (ground (arith, k))
        | inl (_, k) ↦ elim (Result-cases (rebuild w m d taken.1).0) [
          | inr (x, r) ↦ absurd (ground (arith, k, r))
          | inl (_, r) ↦
              let (i, number, was) =
                rebuild-WasRebuilt w m d taken.1 (rebuild w m d taken.1).1 (ground (arith, r)) in
              (
                ground (arith, k, r),
                ground (arith, k, r),
                (i, number, subst (WasRebuilt w m d i) same was),
              )
        ]
      ]

  -- Which identity was stored and is in force, and whether the device `d` was rebuilt for it.
  abbrev pub IsRenamed :
      Text → Option Identity → Option Identity → Bool → Sys → Sys → DeviceRow → Device → Type 0
  IsRenamed id ident eff rebuilt s s' row d =
      (stored : Option Identity) × IsChosen ident stored
      × (eff ≡ or_default stored m.default_identity)
      × (let keeps =
            same_identity (or_default d.identity m.default_identity) eff
            || not (state_eq d.state ready || state_eq d.state leased) in
          (keeps ≡ true)
            × (rebuilt ≡ false)
            × (s'.calls ≡ s.calls)
            × (find? (has_device id) s'.devices ≡ some (record row { identity = stored }))
          ⊎ (keeps ≡ false)
            × (rebuilt ≡ true)
            × ((i : ℕ) × (index_of m id ≡ ok i)
                × WasRebuilt w m (record d { identity = stored }) i s.calls))

  set_identity-IsRenamed :
      (id : Text) (ident eff : Option Identity) (rebuilt : Bool) (s s' : Sys) (d : Device)
      (row : DeviceRow) (got : Db)
      → get_device id s.db ≡ (ok d, got)
      → find? (has_device id) got.devices ≡ some row
      → d.id ≡ id
      → set_identity w m id ident s ≡ (ok (eff, rebuilt), s')
      → IsRenamed id ident eff rebuilt s s' row d
  unfolding set_identity effective_identity
  set_identity-IsRenamed id ident eff rebuilt s s' d row got g there named e =
      elim (Result-cases (checked_identity ident)) [
        | inr (x, c) ↦ absurd (ground (arith, g, c, e))
        | inl (stored, c) ↦
            let put = on_db (set_device_identity id stored) (record s { db = got }) in
            let chosen = checked_identity-IsChosen ident stored c in
            elim (Result-cases put.0) [
              | inr (x, p) ↦ absurd (ground (arith, g, c, p, e))
              | inl (_, p) ↦
                  let kept =
                    set_device_identity-row id stored got put.1.db row (ground (arith, p)) there in
                  let renamed = record d { identity = stored } in
                  let in_force = or_default stored m.default_identity in
                  let skips =
                    same_identity (or_default d.identity m.default_identity) in_force
                    || not (is_up d.state) in
                  elim (Bool-cases skips) [
                    | inl skip ↦
                        let same : eff ≡ in_force = ground (arith, g, c, p, skip, e) in
                        (
                          stored,
                          chosen,
                          same,
                          inl (
                            rw same skip,
                            ground (arith, g, c, p, skip, e),
                            ground (arith, g, c, p, skip, e),
                            ground (arith, g, c, p, skip, e, kept),
                          ),
                        )
                    | inr go ↦
                        let (b, same, (i, number, was)) =
                          rebuild_as-WasRebuilt renamed in_force eff rebuilt put.1 s'
                            (ground (arith, g, c, p, go, e)) in
                        (
                          stored,
                          chosen,
                          same,
                          inr (
                            rw same go,
                            b,
                            (i, subst (λ j. index_of m j ≡ ok i) named number, was),
                          ),
                        )
                  ]
            ]
      ]

  -- A change of identity that returns has found the device's row, accepted the wish, and returns
  -- what is then in force: the wished identity in its completed form, which is valid, or the
  -- manager's default if none is wished. If this is the same as was in force before, or the device
  -- is neither ready nor leased, it returns that nothing was rebuilt, has called the driver not at
  -- all, and the row has the new identity and is otherwise as before; else it returns that the
  -- device was rebuilt, and this device, with the new identity, was wiped, created and booted,
  -- each step with success.
  pub set_identity-rebuilds :
      (id : Text) (ident eff : Option Identity) (rebuilt : Bool) (s s' : Sys)
      → set_identity w m id ident s ≡ (ok (eff, rebuilt), s')
      → (row : DeviceRow) × (find? (has_device id) s.devices ≡ some row)
        × IsRenamed id ident eff rebuilt s s' row (scan_device row)
  set_identity-rebuilds id ident eff rebuilt s s' e = elim (Result-cases (get_device id s.db).0) [
    | inr (x, g) ↦ absurd (unfold set_identity in ground (arith, g, e))
    | inl (d, k) ↦
        let got = (get_device id s.db).1 in
        let g : get_device id s.db ≡ (ok d, got) = ground (arith, k) in
        let (named, same) = id-get_device id s.db got d g in
        let (row, found, scanned) = row-get_device id s.db got d g in
        let there : find? (has_device id) got.devices ≡ some row = rw same found in
        (
          row,
          found,
          subst (IsRenamed id ident eff rebuilt s s' row) scanned
              (set_identity-IsRenamed id ident eff rebuilt s s' d row got g there named e),
        )
  ]
