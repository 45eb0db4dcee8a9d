-- ===== src/Scrcpy/Server/Stopped.antt =====
-- What `Start` of internal/scrcpy/scrcpy.go leaves behind.
use droidpool.Prelude.{
  ℕ, zero, suc, ◌+◌, ◌*◌, ◌/◌, ◌≤◌, ◌<◌, ◌≡◌, refl, subst, ◌⊎◌, inl, inr, Bool, true, false, ◌∷◌,
  some, arith, Bool-cases, ltb, Text,
}
use droidpool.Exec.{
  Error, ok, err, diverged, bad_options, adb_failed, request_failed, timed_out, cancelled,
}
use droidpool.Scrcpy.Stream.{Read, done, failed, short_read, Screen, handshake}
use droidpool.Scrcpy.Server.{
  Options, Event, launches, waited, dials, kills, closes_control, closes_video, Log, Dialed,
  refused, dead, alive, Outside, Session, remove_forward, push_jar, add_forward, stop_all, stop_own,
  server_args, noted_if, close, interval, connect_limit, lacks_option, fresh, Opened, fail_closed,
  control_dialed, is_up, connect_rounds, connect, read_screen, greet, launch, start,
}

-- Time does not run backwards, and a wait that the timer ends has lasted 100 milliseconds.
pub record IsClock (o : Outside) : Type 0 where
  pub passes : (e : Event) (log : Log) → o.clock log ≤ o.clock (e ∷ log)
  pub waits :
      (log : Log) → o.wakes (waited ∷ log) ≡ true → o.clock log + interval ≤ o.clock (waited ∷ log)

abbrev pub is_diverged : Error → Bool
is_diverged diverged = true
is_diverged e = false

-- The session has both sockets and the server's process, and is not closed.
abbrev pub IsOpen : Session → Type 0
IsOpen s =
    (s.closed ≡ false)
    × (s.process ≡ true)
    × (s.video ≡ true)
    × (s.control ≡ true)
    × (s.forwards ≡ true)

-- The session of a start that succeeds also has the size of the screen.
abbrev pub HasScreen : Session → Type 0
HasScreen s = IsOpen s × ((sc : Screen) × (s.screen ≡ some sc))

-- At the end, the server was stopped and then the forward removed.
abbrev pub IsStopped : Options → Text → Log → Type 0
IsStopped opt scid log =
    (p : Bool) × (rest : Log) × (log ≡ remove_forward opt ∷ noted_if p kills (stop_own scid ∷ rest))

-- A session that is open, or an error other than that fuel ran out, with all stopped.
abbrev pub Ended : (Session → Type 0) → Options → Text → Opened → Type 0
Ended P opt scid x =
    ((s : Session) × (x.0 ≡ ok s) × P s)
    ⊎ ((e : Error) × (x.0 ≡ err e) × (is_diverged e ≡ false) × IsStopped opt scid x.1)

-- The start does not return: it reads the handshake of a server that has sent too little and keeps
-- the connection open.
abbrev pub IsStuck : Outside → Opened → Type 0
IsStuck o x =
    (x.0 ≡ err diverged) × (handshake (o.bytes x.1) ≡ failed short_read) × (o.ends x.1 ≡ false)

module _ (o : Outside) (opt : Options) (scid : Text) where
  -- What the session is before its sockets are open.
  abbrev IsBegun : Session → Type 0
  IsBegun s =
      (s.options ≡ opt)
      × (s.scid ≡ scid)
      × (s.command ≡ true)
      × (s.forwards ≡ true)
      × (s.closed ≡ false)

  close-IsStopped : (s : Session) (log : Log) → IsBegun s → IsStopped opt scid (close s log).1
  unfolding close
  close-IsStopped s log (opts, id, command, forwards, closed) =
      rw (closed, forwards, command, opts, id)
        (s.process, noted_if s.control closes_control (noted_if s.video closes_video log), refl)

  fail-Ended :
      (P : Session → Type 0) (e : Error) (s : Session) (log : Log)
      → IsBegun s
      → is_diverged e ≡ false
      → Ended P opt scid (fail_closed e s log)
  fail-Ended P e s log begun fine = inr (e, refl, fine, close-IsStopped s log begun)

  abbrev IsReady : Session → Type 0
  IsReady s = IsBegun s × IsOpen s

  -- The session before the control socket, and whether it has the video socket.
  abbrev IsRunning : Bool → Session → Type 0
  IsRunning video s = IsBegun s × (s.process ≡ true) × (s.video ≡ video)

  control-Ended :
      (s : Session) (log : Log) (d : Dialed)
      → IsRunning true s
      → Ended IsReady opt scid (control_dialed o s log d)
  control-Ended s log refused r = fail-Ended IsReady request_failed s log r.0 refl
  control-Ended s log dead (begun, process, video) =
      inl (record s { control = true }, refl, (begun, (begun.4, process, video, refl, begun.3)))
  control-Ended s log alive (begun, process, video) =
      inl (record s { control = true }, refl, (begun, (begun.4, process, video, refl, begun.3)))

  module _ (c : IsClock o) where
    rounds-Ended :
        (s : Session) (deadline f : ℕ) (log : Log)
        → IsRunning false s
        → deadline + interval ≤ o.clock log + interval * f
        → 0 < f
        → Ended IsReady opt scid (connect_rounds o s deadline f log)
    unfolding connect_rounds
    rounds-Ended s deadline zero log r fuel some_fuel = absurd (omega arith)
    rounds-Ended s deadline (suc f) log r fuel some_fuel =
        let w = waited ∷ log in
        let d = dials s.options.local_port ∷ w in
        let p = c.passes (dials s.options.local_port) w in
        elim (Bool-cases (ltb (o.clock log) deadline)) [
          | inr late ↦ rw late (fail-Ended IsReady timed_out s log r.0 refl)
          | inl early ↦ elim (Bool-cases (o.wakes w)) [
            | inr woken ↦ rw (early, woken) (fail-Ended IsReady cancelled s w r.0 refl)
            | inl on_time ↦
                let q = c.waits log on_time in
                elim (Bool-cases (is_up o (o.dialed d))) [
                  | inl up ↦
                      rw (early, on_time, up)
                        (control-Ended (record s { video = true }) (dials s.options.local_port ∷ d)
                          (o.dialed (dials s.options.local_port ∷ d)) (r.0, r.1, refl))
                  | inr down ↦
                      rw (early, on_time, down)
                        (rounds-Ended s deadline f d r (ground (arith, early, p, q))
                          (ground (arith, early, p, q)))
                ]
          ]
        ]

    abbrev Finishes : Opened → Type 0
    Finishes x = Ended HasScreen opt scid x ⊎ IsStuck o x

    read-Ended :
        (s : Session) (log : Log) (r : Read Screen)
        → IsReady s
        → handshake (o.bytes log) ≡ r
        → Finishes (read_screen o s log r)
    read-Ended s log (done sc rest) (begun, opened) e =
        inl (inl (record s { screen = some sc }, refl, (opened, (sc, refl))))
    read-Ended s log (failed short_read) (begun, opened) e = elim (Bool-cases (o.ends log)) [
      | inl over ↦ rw over (inl (fail-Ended HasScreen request_failed s log begun refl))
      | inr stays ↦ rw stays (inr (refl, e, stays))
    ]
    read-Ended s log (failed x) (begun, opened) e =
        inl (fail-Ended HasScreen request_failed s log begun refl)

    greet-Ended : (x : Opened) → Ended IsReady opt scid x → Finishes (greet o x)
    greet-Ended (ok s, log) (inl (t, e, ready)) =
        let same : t ≡ s = ground (arith, e) in
        read-Ended s log (handshake (o.bytes log)) (subst IsReady same ready) refl
    greet-Ended (ok s, log) (inr (e, eq, fine, stopped)) = absurd (ground (arith, eq))
    greet-Ended (err d, log) (inl (t, e, ready)) = absurd (ground (arith, e))
    greet-Ended (err d, log) (inr (e, eq, fine, stopped)) = inl (inr (e, eq, fine, stopped))

    launch-Ended : (log : Log) → Finishes (launch o opt scid log)
    unfolding launch connect
    launch-Ended log =
        let launched = launches (server_args opt scid) ∷ log in
        elim (Bool-cases (o.succeeds launched)) [
          | inr bad ↦ rw bad (
              inl (
                fail-Ended HasScreen adb_failed (fresh opt scid) launched
                  (refl, refl, refl, refl, refl) refl))
          | inl good ↦ rw good (
              greet-Ended (connect o (record (fresh opt scid) { process = true }) launched) (
                rounds-Ended (record (fresh opt scid) { process = true })
                  (o.clock launched + connect_limit) (connect_limit / interval + 1) launched
                  ((refl, refl, refl, refl, refl), refl, refl) (omega arith) (omega arith)))
        ]

    -- Under a clock that does not run backwards, where a wait that its timer ends has lasted 100
    -- ms, the start of a video session either gives an open session with both sockets and the size
    -- of the screen; or refuses its options with nothing run; or fails at pushing the server or at
    -- adb's forward; or fails later, after the server on the device was stopped and then the
    -- forward removed; or does not return, and then it reads the handshake of a server that has
    -- sent too little of it and keeps the connection open.
    pub start-Ends :
        (log : Log)
        → let x = start o opt scid log in
          let pushed = push_jar opt ∷ stop_all ∷ log in
          let forwarded = add_forward opt scid ∷ remove_forward opt ∷ pushed in
          Ended HasScreen opt scid x
          ⊎ IsStuck o x
          ⊎ (x ≡ (err bad_options, log))
          ⊎ (x ≡ (err adb_failed, pushed))
          ⊎ (x ≡ (err adb_failed, forwarded)) × (o.succeeds forwarded ≡ false)
    unfolding start
    start-Ends log =
        let pushed = push_jar opt ∷ stop_all ∷ log in
        let forwarded = add_forward opt scid ∷ remove_forward opt ∷ pushed in
        elim (Bool-cases (lacks_option opt)) [
          | inl lacking ↦ rw lacking (inr (inr (inl refl)))
          | inr given ↦ elim (Bool-cases (o.succeeds pushed)) [
            | inr bad ↦ rw (given, bad) (inr (inr (inr (inl refl))))
            | inl good ↦ elim (Bool-cases (o.succeeds forwarded)) [
              | inr bad ↦ rw (given, good, bad) (inr (inr (inr (inr (refl, refl)))))
              | inl better ↦
                  rw (given, good, better)
                    (elim (launch-Ended forwarded) [
                      | inl ended ↦ inl ended
                      | inr stuck ↦ inr (inl stuck)
                    ])
            ]
          ]
        ]
