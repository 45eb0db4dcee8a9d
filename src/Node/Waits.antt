-- ===== src/Node/Waits.antt =====
-- How the loop of `WaitBoot` in internal/node/node.go ends.
use droidpool.Prelude.{
  ℕ, zero, suc, ◌+◌, ◌*◌, ◌/◌, ◌≤◌, ◌<◌, ◌≡◌, refl, ◌⊎◌, inl, inr, true, false, [], ◌∷◌, arith,
  Bool-cases, ltb, Text, codes,
}
use droidpool.Exec.{Result, ok, err, timed_out, cancelled}
use droidpool.Pool.Time.{second}
use droidpool.Node.Host.{Host, Command, docker_run, slept, Log, docker, now, sleep}
use droidpool.Node.Names.{container_name}
use droidpool.Node.Containers.{boot_rounds, wait_boot, says_one}

-- Time does not run backwards, and a sleep that the timer ends has lasted as long as it was asked
-- for.
pub record IsClock (h : Host) : Type 0 where
  pub passes : (c : Command) (log : Log) → h.clock log ≤ h.clock (c ∷ log)
  pub sleeps :
      (d : ℕ) (log : Log)
      → h.wakes (slept d ∷ log) ≡ true
      → h.clock log + d ≤ h.clock (slept d ∷ log)

abbrev pub probe : Text → Command
probe name = docker_run (codes "exec" ∷ name ∷ codes "getprop" ∷ codes "sys.boot_completed" ∷ [])

-- The three ways in which the loop returns: the newest command is a probe that was answered by 1,
-- the deadline is past, or the context ended the newest sleep.
abbrev pub Ended : Host → Text → ℕ → Result (Unit {0}) → Log → Type 0
Ended h name deadline r log =
    ((r ≡ ok tt) × ((rest : Log) × (log ≡ probe name ∷ rest) × (says_one (h.output log) ≡ true)))
    ⊎ (((r ≡ err timed_out) × (deadline < h.clock log))
        ⊎ ((r ≡ err cancelled)
            × ((rest : Log) × (log ≡ slept (2 * second) ∷ rest) × (h.wakes log ≡ false))))

module _ (h : Host) (c : IsClock h) where
  rounds-Ended :
      (name : Text) (deadline f : ℕ) (log : Log)
      → deadline + 2 * second < h.clock log + 2 * second * f
      → 0 < f
      → Ended h name deadline
          (boot_rounds h name deadline f log).0
          (boot_rounds h name deadline f log).1
  unfolding boot_rounds docker now sleep
  rounds-Ended name deadline zero log fuel pos = absurd (omega arith)
  rounds-Ended name deadline (suc f) log fuel pos =
      let probed = probe name ∷ log in
      let waited = slept (2 * second) ∷ probed in
      let p = c.passes (probe name) log in
      elim (Bool-cases (says_one (h.output probed))) [
        | inl one ↦ rw one (inl (refl, (log, refl, one)))
        | inr more ↦ elim (Bool-cases (ltb deadline (h.clock probed))) [
          | inl late ↦ rw (more, late) (inr (inl (refl, ground (arith, late))))
          | inr early ↦ elim (Bool-cases (h.wakes waited)) [
            | inr woken ↦ rw (more, early, woken) (inr (inr (refl, (probed, refl, woken))))
            | inl on_time ↦
                let q = c.sleeps (2 * second) probed on_time in
                rw (more, early, on_time)
                  (rounds-Ended name deadline f waited (ground (arith, early, p, q))
                    (ground (arith, early, p)))
          ]
        ]
      ]

  -- Under a clock that does not run backwards and passes at least as much time as a finished sleep
  -- asked for, WaitBoot returns: right after a probe answered by 1, with a timeout after more than
  -- the given time, or with the context's error after a sleep that it cut short.
  pub wait_boot-Ended :
      (id : Text) (timeout : ℕ) (log : Log)
      → Ended h
          (container_name id)
          (h.clock log + timeout)
          (wait_boot h id timeout log).0
          (wait_boot h id timeout log).1
  unfolding wait_boot
  wait_boot-Ended id timeout log =
      rounds-Ended (container_name id) (h.clock log + timeout) (timeout / (2 * second) + 2) log
        (omega arith) (omega arith)
