-- ===== src/Api/Pictures/Still.antt =====
-- How much `handleStream` of internal/api/wall.go sends of a picture that stands still.
use droidpool.Prelude.{
  ℕ, ◌+◌, ◌*◌, ◌^◌, ◌≤◌, ◌≡◌, inl, inr, true, List, [], ◌∷◌, some, All, arith, Bool-cases,
  Option-cases, ltb, ◌==◌, Text, length,
}
use droidpool.Api.Wall.{Shot, StreamState, stream_turn}
use droidpool.Api.Pictures.{Moment, picture_turn, pictures}

module _ (checksum : Text → ℕ) where
  -- A screenshot of this turn has this checksum, and it is not later than `last`.
  abbrev pub IsStill : ℕ → ℕ → Moment → Type 0
  IsStill sum last m = (m.now ≤ last) × ((s : Shot) → m.shot ≡ some s → checksum s.picture ≡ sum)

  -- Of turns up to some time whose screenshots all have the checksum of the picture that was sent
  -- last, a stream sends at most one picture for each two seconds since then.
  pub pictures-AreSparse :
      (ms : List Moment) (st : StreamState) (last : ℕ)
      → All (IsStill st.last_sum last) ms
      → st.last_sent ≤ last
      → length (pictures checksum ms st) * (2 * 10 ^ 9) + st.last_sent ≤ last
  unfolding pictures picture_turn stream_turn
  pictures-AreSparse [] st last still le = omega (arith, le)
  pictures-AreSparse (m ∷ ms) st last ((now, same), still) le =
      let rest = pictures-AreSparse ms st last still le in
      elim (Bool-cases m.cancelled) [
        | inl over ↦ rw over (omega (arith, le))
        | inr goes ↦ elim (Option-cases m.shot) [
          | inl no_shot ↦ elim (Bool-cases m.waited) [
            | inl again ↦ rw (goes, no_shot, again) rest
            | inr over ↦ rw (goes, no_shot, over) (omega (arith, le))
          ]
          | inr (s, shot) ↦
              let alike : (st.last_sum == st.last_sum) ≡ true = ground arith in
              elim (Bool-cases (ltb m.now (st.last_sent + 2 * 10 ^ 9))) [
                | inl early ↦ rw (goes, shot, same s shot, alike, early) rest
                | inr late ↦
                    let later =
                      pictures-AreSparse ms (record { last_sum = st.last_sum; last_sent = m.now })
                        last still now in
                    let gap : st.last_sent + 2 * 10 ^ 9 ≤ m.now = ground (arith, late) in
                    elim (Bool-cases (ltb 2 m.writes)) [
                      | inl whole ↦
                          rw (goes, shot, same s shot, alike, late, whole)
                            (omega (arith, later, gap))
                      | inr cut ↦
                          rw (goes, shot, same s shot, alike, late, cut) (omega (arith, now, gap))
                    ]
              ]
        ]
      ]
