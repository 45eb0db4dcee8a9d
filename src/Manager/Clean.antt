-- ===== src/Manager/Clean.antt =====
-- What a reset of internal/pool/manager.go guarantees of the device that it puts back into the pool.
use droidpool.Prelude.{ℕ, ◌≡◌, inl, inr, true, List, ◌∷◌, arith}
use droidpool.Exec.{ok, Result-cases}
use droidpool.Pool.Lease.{Device}
use droidpool.Manager.World.{
  World, Sys, Manager, DriverCall, creates, removes, wipes, waits_boot, effective_identity,
  boot_timeout,
}
use droidpool.Manager.Index.{port, index_of}
use droidpool.Manager.Rebuild.{rebuild}
use droidpool.Manager.Keeps.{tables-apply_device_settings}

module _ (w : World) (m : Manager) where
  -- The node's part of a rebuild: the wipe, then the creation, then the boot, each of which the
  -- driver has answered with success, on top of the calls there were before.
  abbrev pub WasRebuilt : Device → ℕ → List DriverCall → Type 0
  WasRebuilt d i before =
      let removed = removes d.id ∷ before in
      let wiped = wipes d.id m.overlay_base ∷ removed in
      let created = creates d.id (port m i) m.overlay_base (effective_identity m d) ∷ wiped in
      let booted = waits_boot d.id (boot_timeout m) ∷ created in
      (w.answers wiped ≡ true) × (w.answers created ≡ true) × (w.answers booted ≡ true)

  pub rebuild-WasRebuilt :
      (d : Device) (s s' : Sys)
      → rebuild w m d s ≡ (ok tt, s')
      → (i : ℕ) × (index_of m d.id ≡ ok i) × WasRebuilt d i s.calls
  unfolding rebuild
  rebuild-WasRebuilt d s s' e = elim (Result-cases (index_of m d.id)) [
    | inl (i, n) ↦ (i, n, ground (arith, n))
    | inr (x, n) ↦ absurd (ground (arith, n))
  ]

  -- A rebuild that succeeds leaves the tables as they were.
  pub tables-rebuild :
      (d : Device) (s s' : Sys) → rebuild w m d s ≡ (ok tt, s') → s'.tables ≡ s.tables
  unfolding rebuild
  tables-rebuild d s s' e = elim (Result-cases (index_of m d.id)) [
    | inl (i, n) ↦
        let removed = removes d.id ∷ s.calls in
        let wiped = wipes d.id m.overlay_base ∷ removed in
        let created = creates d.id (port m i) m.overlay_base (effective_identity m d) ∷ wiped in
        let booted = waits_boot d.id (boot_timeout m) ∷ created in
        ground (arith, n, tables-apply_device_settings w m d.id (record s { calls = booted }))
    | inr (x, n) ↦ absurd (ground (arith, n))
  ]
