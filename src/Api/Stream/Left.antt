-- ===== src/Api/Stream/Left.antt =====
-- What the video streams of internal/api/h264.go leave in the table of sessions.
use droidpool.Prelude.{
  ℕ, ◌+◌, ◌^◌, ◌<◌, ◌≤◌, ◌≡◌, ◌≢◌, refl, ap, ◌∙◌, inl, inr, true, false, List, ◌∷◌, Option, none,
  some, Text, text_eq, find?, is_empty, arith,
}
use droidpool.Exec.{ok}
use droidpool.Pool.Lease.{Device}
use droidpool.Api.Sessions.{
  LiveSession, Sessions, is_of, set_controller, acquire_capped, acquire, release,
}
use droidpool.Api.Sessions.Takeover.{acquired, takeover-wins}
use droidpool.Api.Live.Opened.{find-set_each_own, find-set_each_other, release-Gone}
use droidpool.Api.Stream.{Turn, keep_controller, gen_of, handle_h264_stream}

-- The device's session is of this generation, and the other devices' are as before.
abbrev IsHeld : Text → Text → ℕ → Sessions → Sessions → Type 0
IsHeld id other gen h t =
    ((e : LiveSession) × (find? (is_of id) t.live ≡ some e) × (e.gen ≡ gen))
    × (find? (is_of other) t.live ≡ find? (is_of other) h.live)
    × (t.next ≡ h.next + 1)

-- Another request for the device's video.
abbrev pub takes_over : Text → ℕ → Sessions → Sessions
takes_over id port_base t = (acquire id port_base t).1

-- The device's session is that of the second generation after those of `h`, the first has been
-- cancelled, and the other devices' sessions are as before.
abbrev pub TakenOver : Text → Text → Sessions → Sessions → Type 0
TakenOver id other h t =
    (find? (is_of id) t.live ≡ some (record { id = id; gen = h.next + 2; ctrl = none }))
    × ((olds : List ℕ) × (t.cancelled ≡ (h.next + 1) ∷ olds))
    × (find? (is_of other) t.live ≡ find? (is_of other) h.live)

module _ (id other : Text) (ne : text_eq id other ≡ false) where
  keep-IsHeld :
      (gen : ℕ) (ctrl : Option ℕ) (h t : Sessions) (e : LiveSession)
      → find? (is_of id) t.live ≡ some e
      → e.gen ≡ gen
      → find? (is_of other) t.live ≡ find? (is_of other) h.live
      → t.next ≡ h.next + 1
      → IsHeld id other gen h (keep_controller id gen ctrl t)
  unfolding keep_controller set_controller
  keep-IsHeld gen none h t e mine g others n = ((e, mine, g), others, n)
  keep-IsHeld gen (some c) h t e mine g others n = (
    (record e { ctrl = some c }, find-set_each_own id gen c t.live e mine g, g),
    find-set_each_other id other gen c t.live ne ∙ others,
    n,
  )

  -- The generation of a new stream, and the table while it is sent.
  abbrev while_sent : ℕ → Option ℕ → Sessions → Sessions
  while_sent port_base ctrl h =
      let x = acquire id port_base h in keep_controller id (gen_of x.0) ctrl x.1

  -- Without a limit every session is let in.
  lets_in : (port_base : ℕ) (h : Sessions) → acquire_capped id port_base 0 h ≢ (none, h)
  unfolding acquire_capped
  lets_in port_base h full = ground (arith, full)

  stream-IsHeld :
      (port_base : ℕ) (ctrl : Option ℕ) (h : Sessions)
      → h.next + 1 < 2 ^ 31
      → (gen_of (acquire id port_base h).0 ≡ h.next + 1)
        × IsHeld id other (h.next + 1) h (while_sent port_base ctrl h)
  unfolding acquire
  stream-IsHeld port_base ctrl h room = elim (acquired id port_base 0 h room) [
    | inl full ↦ absurd (lets_in port_base h full)
    | inr (olds, taken, _) ↦
        let (mine, others, _, _, _) =
          takeover-wins id other port_base 0 _ _ 0 h _ room ne (omega arith) taken in
        rw taken (refl, keep-IsHeld (h.next + 1) ctrl h _ _ mine refl others refl)
  ]

  acquire-cancels :
      (port_base : ℕ) (h : Sessions) (e : LiveSession)
      → find? (is_of id) h.live ≡ some e
      → (acquire id port_base h).1.cancelled ≡ e.gen ∷ h.cancelled
  unfolding acquire acquire_capped
  acquire-cancels port_base h e found = rw found refl

  -- A second stream of the device: the end of the first changes nothing any more.
  again-Wins :
      (port_base gen : ℕ) (t : Sessions) (e : LiveSession)
      → t.next + 1 < 2 ^ 31
      → gen ≤ t.next
      → find? (is_of id) t.live ≡ some e
      → let t' = (acquire id port_base t).1 in
        (release id gen t' ≡ t')
        × (find? (is_of id) t'.live ≡ some (record { id = id; gen = t.next + 1; ctrl = none }))
        × (t'.cancelled ≡ e.gen ∷ t.cancelled)
        × (find? (is_of other) t'.live ≡ find? (is_of other) t.live)
  unfolding acquire
  again-Wins port_base gen t e room older there = elim (acquired id port_base 0 t room) [
    | inl full ↦ absurd (lets_in port_base t full)
    | inr (olds, taken, _) ↦
        let (mine, others, _, kept, _) =
          takeover-wins id other port_base 0 _ _ gen t _ room ne older taken in
        let told = acquire-cancels port_base t e there in
        (rw taken kept, rw taken mine, told, rw taken others)
  ]

  after_stream :
      (jar : Text) (port_base : ℕ) (d : Device) (ctrl : Option ℕ) (turns : List Turn)
      (others : Sessions → Sessions) (h : Sessions)
      → is_empty jar ≡ false
      → d.id ≡ id
      → h.next + 1 < 2 ^ 31
      → (handle_h264_stream jar port_base (ok d) true (some ctrl) turns others h).1
        ≡ release id (h.next + 1) (others (while_sent port_base ctrl h))
  unfolding handle_h264_stream
  after_stream jar port_base d ctrl turns others h given same room =
      let (gen, held) = stream-IsHeld port_base ctrl h room in
      rw (given, same) (ap (λ g. release id g (others (while_sent port_base ctrl h))) gen)

  -- A video stream that no other request disturbs leaves no session of its device, and the other
  -- devices' sessions as they were.
  pub handle_h264_stream-Leaves :
      (jar : Text) (port_base : ℕ) (d : Device) (ctrl : Option ℕ) (turns : List Turn) (h : Sessions)
      → is_empty jar ≡ false
      → d.id ≡ id
      → h.next + 1 < 2 ^ 31
      → let t = (handle_h264_stream jar port_base (ok d) true (some ctrl) turns (λ x. x) h).1 in
        (find? (is_of id) t.live ≡ none) × (find? (is_of other) t.live ≡ find? (is_of other) h.live)
  handle_h264_stream-Leaves jar port_base d ctrl turns h given same room =
      let (gen, ((e, mine, own), others, _)) = stream-IsHeld port_base ctrl h room in
      let (gone, apart) =
        release-Gone id other (h.next + 1) (while_sent port_base ctrl h) ne
          (rw mine (ground (arith, own))) in
      let left = after_stream jar port_base d ctrl turns (λ x. x) h given same room in
      (
        ap (λ (x : Sessions). find? (is_of id) x.live) left ∙ gone,
        ap (λ (x : Sessions). find? (is_of other) x.live) left ∙ apart ∙ others,
      )

  -- With scrcpy configured and on a session table with fewer than 2^31 - 2 generations so far, if
  -- another request for the same device's video arrives while a stream is sent, then after the
  -- stream has ended the device's session is still that of the other request, the stream's own had
  -- been cancelled, and the other devices' sessions are as before.
  pub handle_h264_stream-Yields :
      (jar : Text) (port_base : ℕ) (d : Device) (ctrl : Option ℕ) (turns : List Turn) (h : Sessions)
      → is_empty jar ≡ false
      → d.id ≡ id
      → h.next + 2 < 2 ^ 31
      → TakenOver id other h
          (handle_h264_stream jar port_base
            (ok d)
            true
            (some ctrl)
            turns
            (takes_over id port_base)
            h).1
  handle_h264_stream-Yields jar port_base d ctrl turns h given same room =
      let (gen, ((e, mine, own), others, next)) =
        stream-IsHeld port_base ctrl h (omega (arith, room)) in
      let t = while_sent port_base ctrl h in
      let (kept, newer, told, apart) =
        again-Wins port_base (h.next + 1) t e (omega (arith, next, room)) (omega (arith, next))
          mine in
      let left =
        after_stream jar port_base d ctrl turns (takes_over id port_base) h given same
          (omega (arith, room))
        ∙ kept in
      let first : t.next + 1 ≡ h.next + 2 = omega (arith, next) in
      (
        ap (λ (x : Sessions). find? (is_of id) x.live) left
            ∙ newer
            ∙ ap (λ g. some (record { id = id; gen = g; ctrl = none })) first,
        (
          t.cancelled,
          ap (λ (x : Sessions). x.cancelled) left ∙ told ∙ ap (λ g. g ∷ t.cancelled) own,
        ),
        ap (λ (x : Sessions). find? (is_of other) x.live) left ∙ apart ∙ others,
      )
