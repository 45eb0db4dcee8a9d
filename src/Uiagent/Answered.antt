-- ===== src/Uiagent/Answered.antt =====
-- How `Start` of internal/uiagent/uiagent.go ends.
use droidpool.Prelude.{
  ℕ, zero, suc, ◌+◌, ◌*◌, ◌/◌, ◌≤◌, ◌<◌, ◌≡◌, refl, ◌⊎◌, inl, inr, Bool, true, false, List, ◌∷◌,
  arith, Bool-cases, ltb, Text, codes,
}
use droidpool.Exec.{
  Error, Result, ok, err, Exec, pure, after, diverged, timed_out, cancelled, bad_options,
  adb_failed,
}
use droidpool.Uiagent.{
  Options, Session, Event, asks, slept, Log, Agent, read_answer, is_pong, interval, ready_limit,
  adb_cmd, request, forward, ready_rounds, wait_ready, cold_start, lacks_option, start_or_reuse,
  start,
}

-- Time does not run backwards, and a sleep lasts as long as it was asked for.
pub record IsClock (a : Agent) : Type 0 where
  pub passes : (e : Event) (log : Log) → a.clock log ≤ a.clock (e ∷ log)
  pub sleeps : (d : ℕ) (log : Log) → a.clock log + d ≤ a.clock (slept d ∷ log)

abbrev is_diverged : Error → Bool
is_diverged diverged = true
is_diverged e = false

-- A result, where the log is as said; or an error, which is not that fuel ran out.
abbrev pub Tells : {A : Type 0} → (Log → Type 0) → Result A × Log → Type 0
Tells {A} Q x =
    ((v : A) × (x.0 ≡ ok v) × Q x.1) ⊎ ((e : Error) × (x.0 ≡ err e) × (is_diverged e ≡ false))

abbrev Anything : Log → Type 0
Anything log = Unit

Tells-after :
    {A B : Type 0} (Q : Log → Type 0) (f : A → Exec Log B) (x : Result A × Log)
    → Tells Anything x
    → ((v : A) (log : Log) → Tells Q (f v log))
    → Tells Q (after f x)
Tells-after Q f (ok v, log) h later = later v log
Tells-after Q f (err e, log) (inl (v, eq, u)) later = absurd (ground (arith, eq))
Tells-after Q f (err e, log) (inr (d, eq, fine)) later = inr (d, ground (arith, eq), fine)

-- The newest request is the one that was answered by PONG.
abbrev pub IsAnswered : Agent → Options → Log → Type 0
IsAnswered a opt log =
    (rest : Log) × (log ≡ asks opt.local_port (codes "PING") ∷ rest)
    × (is_pong (read_answer (a.chunks log)) ≡ true)

module _ (a : Agent) (opt : Options) where
  adb_cmd-Tells : (args : List Text) (log : Log) → Tells Anything (adb_cmd a opt args log)
  unfolding adb_cmd
  adb_cmd-Tells args log = elim (Bool-cases (a.succeeds (Event.runs opt.serial args ∷ log))) [
    | inl good ↦ rw good (inl (tt, refl, tt))
    | inr bad ↦ rw bad (inr (adb_failed, refl, refl))
  ]

  module _ (c : IsClock a) where
    rounds-Tells :
        (deadline f : ℕ) (log : Log)
        → deadline + interval ≤ a.clock log + interval * f
        → 0 < f
        → Tells (IsAnswered a opt) (ready_rounds a opt deadline f log)
    unfolding ready_rounds request
    rounds-Tells deadline zero log fuel some_fuel = absurd (omega arith)
    rounds-Tells deadline (suc f) log fuel some_fuel =
        let asked = asks opt.local_port (codes "PING") ∷ log in
        let waited = slept interval ∷ asked in
        let p = c.passes (asks opt.local_port (codes "PING")) log in
        let q = c.sleeps interval asked in
        elim (Bool-cases (ltb (a.clock log) deadline)) [
          | inr late ↦ rw late (inr (timed_out, refl, refl))
          | inl early ↦ elim (Bool-cases (a.alive log)) [
            | inr dead ↦ rw (early, dead) (inr (cancelled, refl, refl))
            | inl going ↦ elim (Bool-cases (is_pong (read_answer (a.chunks asked)))) [
              | inl pong ↦ rw (early, going, pong) (inl (tt, refl, (log, refl, pong)))
              | inr silent ↦
                  rw (early, going, silent)
                    (rounds-Tells deadline f waited (ground (arith, early, p, q))
                      (ground (arith, early, p, q)))
            ]
          ]
        ]

    wait_ready-Tells : (log : Log) → Tells (IsAnswered a opt) (wait_ready a opt log)
    unfolding wait_ready
    wait_ready-Tells log =
        rounds-Tells (a.clock log + ready_limit) (ready_limit / interval + 1) log (omega arith)
          (omega arith)

    cold_start-Tells : (log : Log) → Tells (IsAnswered a opt) (cold_start a opt log)
    unfolding cold_start
    cold_start-Tells log = Tells-after (IsAnswered a opt) _ _ (adb_cmd-Tells _ _) λ u pushed.
        Tells-after (IsAnswered a opt) _ _ (adb_cmd-Tells _ pushed) λ v run. wait_ready-Tells run

    Tells-pure :
        (s : Session) (x : Result (Unit {0}) × Log)
        → Tells (IsAnswered a opt) x
        → Tells (IsAnswered a opt) (after (λ u. pure s) x)
    Tells-pure s (ok u, log) (inl (v, eq, q)) = inl (s, refl, q)
    Tells-pure s (ok u, log) (inr (e, eq, fine)) = absurd (ground (arith, eq))
    Tells-pure s (err d, log) (inl (v, eq, q)) = absurd (ground (arith, eq))
    Tells-pure s (err d, log) (inr (e, eq, fine)) = inr (e, ground (arith, eq), fine)

    -- Under a clock that does not run backwards and with sleeps as long as asked for, the start of
    -- an agent's session returns: a session whose newest request was a PING that was answered by
    -- PONG, or an error, which is not that the waiting never ended.
    pub start-Answers : (log : Log) → Tells (IsAnswered a opt) (start a opt log)
    unfolding start request forward start_or_reuse
    start-Answers log = elim (Bool-cases (lacks_option opt)) [
      | inl lacking ↦ rw lacking (inr (bad_options, refl, refl))
      | inr given ↦ rw given (
          Tells-after (IsAnswered a opt) _ _ (adb_cmd-Tells _ _) λ u forwarded.
            let asked = asks opt.local_port (codes "PING") ∷ forwarded in
            elim (Bool-cases (is_pong (read_answer (a.chunks asked)))) [
              | inl pong ↦
                  rw pong
                    (inl (record { options = opt; reused = true }, refl, (forwarded, refl, pong)))
              | inr silent ↦ rw silent (
                  Tells-pure (record { options = opt; reused = false }) (cold_start a opt asked)
                    (cold_start-Tells asked))
            ])
    ]
