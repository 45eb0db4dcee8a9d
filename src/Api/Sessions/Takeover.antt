-- ===== src/Api/Sessions/Takeover.antt =====
-- The later connection wins: what the table of internal/api/h264.go guarantees of takeovers.
use droidpool.Prelude.{
  ℕ, ◌+◌, ◌%◌, ◌^◌, ◌<◌, ◌≤◌, ◌≡◌, ◌↔◌, ◌⊎◌, inl, inr, false, ◌&&◌, List, [], ◌∷◌, none, some, Text,
  text_eq, text_eq_refl, text_eq_iff, find?, All, length, leb, ltb, if◌then◌else◌, arith,
  Bool-cases, Option-cases,
}
use droidpool.Api.Sessions.{
  LiveSession, Sessions, is_of, next_after, generation, delete, put, acquire_capped, release,
}

pub find-delete :
    (id j : Text) (es : List LiveSession)
    → find? (is_of j) (delete id es) ≡ (if text_eq id j then none else find? (is_of j) es)
unfolding delete
find-delete id j [] = ground arith
find-delete id j (e ∷ es) =
    ground (arith, find-delete id j es, text_eq_iff e.id id, text_eq_iff e.id j, text_eq_iff id j)

length-delete : (id : Text) (es : List LiveSession) → length (delete id es) ≤ length es
unfolding delete
length-delete id [] = omega arith
length-delete id (e ∷ es) = ground (arith, length-delete id es)

length-delete_found :
    (id : Text) (es : List LiveSession) (e : LiveSession)
    → find? (is_of id) es ≡ some e
    → length (delete id es) < length es
unfolding delete
length-delete_found id [] e h = ground arith
length-delete_found id (x ∷ es) e h =
    ground (arith, length-delete_found id es e, length-delete id es)

-- The generations in the table are positive and at most `next`, which has not come to 2^31 yet.
pub record IsDated (h : Sessions) : Type 0 where
  pub small : h.next < 2 ^ 31
  pub dated : All (λ e. (0 < e.gen) × (e.gen ≤ h.next)) h.live

All-delete :
    (n m : ℕ) (id : Text) (es : List LiveSession)
    → n ≤ m
    → All (λ e. (0 < e.gen) × (e.gen ≤ n)) es
    → All (λ e. (0 < e.gen) × (e.gen ≤ m)) (delete id es)
unfolding delete
All-delete n m id [] le h = tt
All-delete n m id (e ∷ es) le h = ground (arith, All-delete n m id es le h.1)

numbered : (n : ℕ) → n + 1 < 2 ^ 31 → (next_after n ≡ n + 1) × (generation (n + 1) ≡ n + 1)
unfolding next_after generation
numbered n room = ground arith

-- Either the table stays, full, or the next generation is registered in it.
pub acquired :
    (id : Text) (port_base limit : ℕ) (h : Sessions)
    → h.next + 1 < 2 ^ 31
    → (acquire_capped id port_base limit h ≡ (none, h))
      ⊎ ((olds : List ℕ) × (acquire_capped id port_base limit h ≡ (
        some (h.next + 1, port_base + (h.next + 1) % 64),
        record { live = put id (h.next + 1) h.live; next = h.next + 1; cancelled = olds },
      ))
          × ((length (delete id h.live) < limit)
              ⊎ (limit ≡ 0)
              ⊎ (length (delete id h.live) < length h.live)))
unfolding acquire_capped
acquired id port_base limit h room =
    let (n, g) = numbered h.next room in
    elim (Option-cases (find? (is_of id) h.live)) [
      | inl new ↦ elim (Bool-cases (ltb 0 limit && leb limit (length h.live))) [
        | inl full ↦ inl (ground (arith, new, full))
        | inr free ↦ inr (
          h.cancelled,
          ground (arith, new, free, n, g),
          ground (arith, free, length-delete id h.live),
        )
      ]
      | inr (old, there) ↦ inr (
        old.gen ∷ h.cancelled,
        ground (arith, there, n, g),
        inr (inr (length-delete_found id h.live old there)),
      )
    ]

-- With fewer than 2^31 - 1 generations so far, taking a session keeps all generations positive and
-- at most the newest, and keeps the number of sessions under a positive cap.
pub acquire-IsDated :
    (id : Text) (port_base limit : ℕ) (h : Sessions)
    → h.next + 1 < 2 ^ 31
    → IsDated h
    → 0 < limit
    → length h.live ≤ limit
    → IsDated (acquire_capped id port_base limit h).1
      × (length (acquire_capped id port_base limit h).1.live ≤ limit)
unfolding put
acquire-IsDated id port_base limit h room d pos le =
    let kept = All-delete h.next (h.next + 1) id h.live (omega arith) d.dated in
    elim (acquired id port_base limit h room) [
      | inl full ↦ rw full (d, le)
      | inr (olds, taken, fits) ↦
          rw taken (
            record { small = room; dated = ((omega arith, omega arith), kept) },
            omega (arith, fits),
          )
    ]

put-finds :
    (id j : Text) (gen : ℕ) (es : List LiveSession)
    → find? (is_of j) (put id gen es) ≡ (
        if text_eq id j
        then some (record { id = id; gen = gen; ctrl = none })
        else find? (is_of j) es)
unfolding put
put-finds id j gen es = ground (arith, find-delete id j es)

-- On a session table with fewer than 2^31 - 1 generations so far, a session that was let in is the
-- one found for its device and leaves the other devices' sessions alone, its port is one of 64,
-- releasing an earlier generation changes nothing, and releasing its own removes it.
pub takeover-wins :
    (id other : Text) (port_base limit gen port older : ℕ) (h h' : Sessions)
    → h.next + 1 < 2 ^ 31
    → text_eq id other ≡ false
    → older ≤ h.next
    → acquire_capped id port_base limit h ≡ (some (gen, port), h')
    → (find? (is_of id) h'.live ≡ some (record { id = id; gen = gen; ctrl = none }))
      × (find? (is_of other) h'.live ≡ find? (is_of other) h.live)
      × ((port_base ≤ port) × (port < port_base + 64))
      × (release id older h' ≡ h')
      × (find? (is_of id) (release id gen h').live ≡ none)
takeover-wins id other port_base limit gen port older h h' room ne le e =
    elim (acquired id port_base limit h room) [
      | inl full ↦ absurd (ground (arith, full))
      | inr (olds, taken, _) ↦
          let new_gen : gen ≡ h.next + 1 = ground (arith, taken) in
          let live : h'.live ≡ put id gen h.live = ground (arith, taken) in
          let mine : find? (is_of id) h'.live ≡ some (record { id = id; gen = gen; ctrl = none }) =
            ground (arith, live, put-finds id id gen h.live, text_eq_refl id) in
          (
            mine,
            ground (arith, live, put-finds id other gen h.live, ne),
            (ground (arith, taken), ground (arith, taken)),
            unfold release in ground (arith, mine, new_gen),
            unfold release in ground (arith, mine, find-delete id id h'.live, text_eq_refl id),
          )
    ]

-- A session is turned away, with the table as it was, exactly if its device has none and the cap
-- is set and reached.
pub acquire-refuses :
    (id : Text) (port_base limit : ℕ) (h : Sessions)
    → (acquire_capped id port_base limit h ≡ (none, h))
      ↔ ((find? (is_of id) h.live ≡ none) × (0 < limit) × (limit ≤ length h.live))
unfolding acquire_capped
acquire-refuses id port_base limit h = elim (Option-cases (find? (is_of id) h.live)) [
  | inl new ↦ ground (arith, new)
  | inr (old, there) ↦ ground (arith, there)
]
