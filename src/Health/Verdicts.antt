-- ===== src/Health/Verdicts.antt =====
-- When the checker of internal/pool/health.go judges a device to be broken.
use droidpool.Prelude.{
  ℕ, ◌==◌, zero, suc, ◌+◌, ◌<◌, ◌≡◌, refl, inl, inr, Bool, true, false, ◌||◌, List, [], ◌∷◌, none,
  some, arith, ltb, if◌then◌else◌, find?, Bool-cases, subst,
}
use droidpool.Exec.{ok}
use droidpool.Pool.State.{broken}
use droidpool.Pool.Time.{Time}
use droidpool.Pool.Lease.{Device}
use droidpool.Store.Sql.{Tables, healthy, fails, later_faults}
use droidpool.Store.Tables.{has_device, device_row}
use droidpool.Store.Devices.{upsert_device, upsert_row}
use droidpool.Store.Upsert.{upsert_row_self}
use droidpool.Manager.Reset.{IsInState}
use droidpool.Health.{
  HealthChecker, threshold, is_probed, answered, unanswered, check_one, one_more,
}

-- The device after a row of probes, newest last, that a round each makes of it.
pub after_probes : ℕ → Time → List Bool → Device → Device
after_probes limit now [] d = d
after_probes limit now (true ∷ ps) d = after_probes limit now ps (answered now d)
after_probes limit now (false ∷ ps) d = after_probes limit now ps (unanswered limit d)

abbrev pub failures : ℕ → List Bool
failures zero = []
failures (suc n) = false ∷ failures n

few_failures :
    (limit k : ℕ) (now : Time) (d : Device)
    → d.health_fails + k < limit
    → (after_probes limit now (failures k) d).state ≡ d.state
      × ((after_probes limit now (failures k) d).health_fails ≡ d.health_fails + k)
unfolding after_probes unanswered
few_failures limit zero now d h = (refl, omega arith)
few_failures limit (suc k) now d h =
    let rest = few_failures limit k now (one_more d) (omega arith) in ground (arith, rest)

answered_lem :
    (now : Time) (d : Device)
    → ((answered now d).health_fails ≡ 0)
      × ((answered now d).state ≡ d.state)
      × ((answered now d).id ≡ d.id)
unfolding answered
answered_lem now d = ground arith

-- After an answer, a device keeps its state through fewer failures in a row than the threshold and
-- has as many counted, and the next failure makes it broken exactly if it reaches the threshold.
pub broken_at_threshold :
    (limit k : ℕ) (now : Time) (d : Device)
    → k < limit
    → ((after_probes limit now (true ∷ failures k) d).state ≡ d.state)
      × ((after_probes limit now (true ∷ failures k) d).health_fails ≡ k)
      × ((unanswered limit (after_probes limit now (true ∷ failures k) d)).state
          ≡ (if suc k == limit then broken else d.state))
unfolding after_probes unanswered
broken_at_threshold limit k now d h =
    let a = answered_lem now d in
    let calm = few_failures limit k now (answered now d) (omega (arith, a.0)) in
    ground (arith, calm, a)

-- On a healthy database a turn of the health check for a device that was read as up reports it
-- exactly if it does not answer and its failures reach the threshold, and then it is broken in the
-- table; otherwise its state in the table is the one that was read, whatever the table had.
pub check_one-reports :
    (h : HealthChecker) (now : Time) (d : Device) (t : Tables)
    → is_probed d ≡ true
    → ((check_one h now d (healthy t)).0
        ≡ ok (
            if h.alive d.adb_addr || ltb (d.health_fails + 1) (threshold h)
            then none
            else some d.id))
      × ((n : ℕ) × IsInState
            (check_one h now d (healthy t)).1.devices
            d.id
            (if h.alive d.adb_addr || ltb (d.health_fails + 1) (threshold h)
              then d.state
              else broken)
            n)
unfolding check_one upsert_device fails later_faults unanswered
check_one-reports h now d t up = elim (Bool-cases (h.alive d.adb_addr)) [
  | inl lives ↦
      let (same_fails, same_state, same_id) = answered_lem now d in
      let (row, f, st, hf) = upsert_row_self (answered now d) t.devices in
      (
        ground (arith, up, lives),
        (
          0,
          (
            row,
            ground (
              arith,
              up,
              lives,
              subst
                  (λ i.
                    find? (has_device i) (upsert_row (device_row (answered now d)) t.devices)
                    ≡ some row)
                  same_id f,
            ),
            ground (arith, lives, st, same_state),
            ground (arith, hf, same_fails),
          ),
        ),
      )
  | inr silent ↦ elim (Bool-cases (ltb (d.health_fails + 1) (threshold h))) [
    | inl few ↦
        let (row, f, st, hf) = upsert_row_self (one_more d) t.devices in
        (
          ground (arith, up, silent, few),
          (
            d.health_fails + 1,
            (row, ground (arith, up, silent, few, f), ground (arith, silent, few, st), hf),
          ),
        )
    | inr many ↦
        let dead = record (one_more d) { state = broken } in
        let (row, f, st, hf) = upsert_row_self dead t.devices in
        (
          ground (arith, up, silent, many),
          (
            d.health_fails + 1,
            (row, ground (arith, up, silent, many, f), ground (arith, silent, many, st), hf),
          ),
        )
  ]
]
