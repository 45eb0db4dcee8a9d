-- ===== src/Api/Live/Opened.antt =====
-- What the start of `handleWS` in internal/api/ws.go leaves in the table of live sessions.
use droidpool.Prelude.{
  ℕ, ◌+◌, ◌%◌, ◌^◌, ◌<◌, ◌≡◌, refl, sym, ap, ◌∙◌, ◌⊎◌, inl, inr, Bool, true, false, List, [], ◌∷◌,
  Option, none, some, Text, text_eq, text_eq_iff, text_eq_refl, find?, is_empty, arith, Bool-cases,
}
use droidpool.Exec.{ok}
use droidpool.Pool.Lease.{Device}
use droidpool.Api.Sessions.{
  LiveSession, Sessions, is_of, set_each, set_controller, owned_by, acquire_capped, release,
}
use droidpool.Api.Sessions.Takeover.{find-delete, acquired, takeover-wins}
use droidpool.Api.Live.{
  ws_max_devices, Started, start_failed, control_failed, started, Opening, missing, not_accepted,
  no_scrcpy, too_many_sessions, scrcpy_failed, no_control, no_greeting, running, come_up,
  after_acquire, open_socket,
}

pub find-set_each_other :
    (id other : Text) (gen c : ℕ) (es : List LiveSession)
    → text_eq id other ≡ false
    → find? (is_of other) (set_each id gen c es) ≡ find? (is_of other) es
unfolding set_each
find-set_each_other id other gen c [] ne = refl
find-set_each_other id other gen c (e ∷ es) ne = ground (
  arith,
  find-set_each_other id other gen c es ne,
  text_eq_iff e.id id,
  text_eq_iff e.id other,
  text_eq_iff id other,
  ne,
)

pub find-set_each_own :
    (id : Text) (gen c : ℕ) (es : List LiveSession) (e : LiveSession)
    → find? (is_of id) es ≡ some e
    → e.gen ≡ gen
    → find? (is_of id) (set_each id gen c es) ≡ some (record e { ctrl = some c })
unfolding set_each
find-set_each_own id gen c [] e h g = absurd (ground (arith, h))
find-set_each_own id gen c (x ∷ es) e h g = ground (arith, h, g, find-set_each_own id gen c es e)

-- A session of this generation that is released is not found any more, and the others are.
pub release-Gone :
    (id other : Text) (gen : ℕ) (h : Sessions)
    → text_eq id other ≡ false
    → owned_by gen (find? (is_of id) h.live) ≡ true
    → (find? (is_of id) (release id gen h).live ≡ none)
      × (find? (is_of other) (release id gen h).live ≡ find? (is_of other) h.live)
unfolding release
release-Gone id other gen h ne own = (
  rw own (rw (find-delete id id h.live) (rw (text_eq_refl id) refl)),
  rw own (rw (find-delete id other h.live) (rw ne refl)),
)

-- The other device's session is as it was.
abbrev Others : Text → Sessions → Sessions → Type 0
Others other h h' = find? (is_of other) h'.live ≡ find? (is_of other) h.live

-- The session was turned away before it had an entry.
abbrev pub is_refusal : Opening → Bool
is_refusal missing = true
is_refusal not_accepted = true
is_refusal no_scrcpy = true
is_refusal too_many_sessions = true
is_refusal o = false

-- The session did not come up.
abbrev pub is_failure : Opening → Bool
is_failure scrcpy_failed = true
is_failure no_control = true
is_failure no_greeting = true
is_failure o = false

-- Refused, and the table is as before; failed, and the device has no session; or scrcpy started
-- with a controller and was greeted, and the device's session is of the next generation, on its
-- port, with this controller.
abbrev pub Settled : Text → ℕ → Started → Sessions → Opening × Sessions → Type 0
Settled id port_base st h x =
    (is_refusal x.0 ≡ true) × (x.1 ≡ h)
    ⊎ (is_failure x.0 ≡ true) × (find? (is_of id) x.1.live ≡ none)
    ⊎ ((ctrl : ℕ) × (st ≡ started ctrl true)
        × (x.0 ≡ running (h.next + 1) (port_base + (h.next + 1) % 64))
        × (find? (is_of id) x.1.live
            ≡ some (record { id = id; gen = h.next + 1; ctrl = some ctrl })))

module _ (id other : Text) (ne : text_eq id other ≡ false) where
  come_up-Settled :
      (port_base gen port : ℕ) (st : Started) (h0 h : Sessions)
      → gen ≡ h0.next + 1
      → port ≡ port_base + (h0.next + 1) % 64
      → find? (is_of id) h.live ≡ some (record { id = id; gen = gen; ctrl = none })
      → Settled id port_base st h0 (come_up id gen port st h)
        × Others other h (come_up id gen port st h).1
  unfolding set_controller
  come_up-Settled port_base gen port start_failed h0 h eg ep mine =
      let (gone, others) = release-Gone id other gen h ne (rw mine (ground arith)) in
      (inr (inl (refl, gone)), others)
  come_up-Settled port_base gen port control_failed h0 h eg ep mine =
      let (gone, others) = release-Gone id other gen h ne (rw mine (ground arith)) in
      (inr (inl (refl, gone)), others)
  come_up-Settled port_base gen port (started c true) h0 h eg ep mine =
      let own = find-set_each_own id gen c h.live _ mine refl in
      (
        inr (
            inr (
              c,
              refl,
              ap (λ g. running g port) eg ∙ ap (λ p. running (h0.next + 1) p) ep,
              own ∙ ap (λ g. some (record { id = id; gen = g; ctrl = some c })) eg,
            )),
        find-set_each_other id other gen c h.live ne,
      )
  come_up-Settled port_base gen port (started c false) h0 h eg ep mine =
      let own = find-set_each_own id gen c h.live _ mine refl in
      let (gone, others) =
        release-Gone id other gen (set_controller id gen c h) ne (rw own (ground arith)) in
      (inr (inl (refl, gone)), others ∙ find-set_each_other id other gen c h.live ne)

  numbered_of :
      (port_base gen port : ℕ) (h h' : Sessions)
      → h.next + 1 < 2 ^ 31
      → acquire_capped id port_base ws_max_devices h ≡ (some (gen, port), h')
      → (gen ≡ h.next + 1) × (port ≡ port_base + (h.next + 1) % 64)
  numbered_of port_base gen port h h' room e = elim (acquired id port_base ws_max_devices h room) [
    | inl full ↦ absurd (ground (arith, full, e))
    | inr (olds, taken, _) ↦ (ground (arith, taken, e), ground (arith, taken, e))
  ]

  after_acquire-Settled :
      (port_base : ℕ) (st : Started) (h : Sessions) (x : Option (ℕ × ℕ) × Sessions)
      → h.next + 1 < 2 ^ 31
      → acquire_capped id port_base ws_max_devices h ≡ x
      → Settled id port_base st h (after_acquire id st x) × Others other h (after_acquire id st x).1
  after_acquire-Settled port_base st h (none, h') room e =
      let same : h' ≡ h = elim (acquired id port_base ws_max_devices h room) [
        | inl full ↦ ap (λ (y : Option (ℕ × ℕ) × Sessions). y.1) (sym e ∙ full)
        | inr (olds, taken, _) ↦ absurd (ground (arith, taken, e))
      ] in
      (inl (refl, same), ap (λ (t : Sessions). find? (is_of other) t.live) same)
  after_acquire-Settled port_base st h (some (gen, port), h') room e =
      let (mine, others, _, _, _) =
        takeover-wins id other port_base ws_max_devices gen port 0 h h' room ne (omega arith) e in
      let (eg, ep) : (gen ≡ h.next + 1) × (port ≡ port_base + (h.next + 1) % 64) =
        numbered_of port_base gen port h h' room e in
      let (settled, rest) = come_up-Settled port_base gen port st h h' eg ep mine in
      (settled, rest ∙ others)

  -- On a session table with fewer than 2^31 - 1 generations so far, the start of a live session
  -- for a device either is refused and leaves the table as it was; or fails after it was let in,
  -- and the device has no session; or scrcpy has started with a controller and greeted, and the
  -- session runs under the next generation and that generation's port, and is the one found for
  -- the device, with this controller. The other devices' sessions are as before.
  pub open_socket-Settled :
      (jar : Text) (port_base : ℕ) (d : Device) (accepted : Bool) (st : Started) (h : Sessions)
      → d.id ≡ id
      → h.next + 1 < 2 ^ 31
      → let x = open_socket jar port_base (ok d) accepted st h in
        Settled id port_base st h x × (find? (is_of other) x.1.live ≡ find? (is_of other) h.live)
  unfolding open_socket
  open_socket-Settled jar port_base d accepted st h same room = elim (Bool-cases accepted) [
    | inr no_socket ↦ rw no_socket (inl (refl, refl), refl)
    | inl socket ↦ elim (Bool-cases (is_empty jar)) [
      | inl no_jar ↦ rw (socket, no_jar) (inl (refl, refl), refl)
      | inr given ↦
          rw (socket, given, same)
            (after_acquire-Settled port_base st h (acquire_capped id port_base ws_max_devices h)
              room refl)
    ]
  ]
