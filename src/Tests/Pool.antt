-- ===== src/Tests/Pool.antt =====
-- The vocabulary of the pool and the video sessions at single values.
use droidpool.Prelude.{◌+◌, ◌^◌, ◌*◌, ◌<◌, ◌≤◌, ◌≡◌, refl, none, some, codes, text_eq, find?, arith}
use droidpool.Pool.Time.{at, second}
use droidpool.Pool.Identity.{validate}
use droidpool.Pool.Lease.{Verdict, should_reap}
use droidpool.Pool.Watchdog.{should_reap-Verdict}
use droidpool.Api.Sessions.{
  Sessions, empty, is_of, next_after, generation, put, delete, acquire_capped, release,
}
use droidpool.Api.Sessions.Takeover.{IsDated, takeover-wins}
use droidpool.Tests.Data.{asked, phone}

is_valid : validate phone ≡ none
unfolding validate
is_valid = refl

should_reap-Verdict_example :
    Verdict asked (2001 * second) 0 0 (should_reap asked (at (2001 * second)) 0 0)
should_reap-Verdict_example = should_reap-Verdict asked (2001 * second) 0 0

abbrev one_live : Sessions
one_live = (acquire_capped (codes "n-1") 27000 2 empty).1

abbrev taken_over : Sessions
taken_over = (acquire_capped (codes "n-1") 27000 2 one_live).1

takes_over : acquire_capped (codes "n-1") 27000 2 one_live ≡ (some (2, 27002), taken_over)
unfolding acquire_capped text_eq next_after generation put delete
takes_over = refl

room : one_live.next + 1 < 2 ^ 31
unfolding acquire_capped next_after
room = omega arith

takeover-wins_example :
    (find? (is_of (codes "n-1")) taken_over.live
      ≡ some (record { id = codes "n-1"; gen = 2; ctrl = none }))
    × (find? (is_of (codes "n-2")) taken_over.live ≡ find? (is_of (codes "n-2")) one_live.live)
    × ((27000 ≤ 27002) × (27002 < 27000 + 64))
    × (release (codes "n-1") 1 taken_over ≡ taken_over)
    × (find? (is_of (codes "n-1")) (release (codes "n-1") 2 taken_over).live ≡ none)
takeover-wins_example =
    takeover-wins (codes "n-1") (codes "n-2") 27000 2 2 27002 1 one_live taken_over room
      (unfold text_eq in refl) (unfold acquire_capped next_after in omega arith) takes_over

empty-IsDated : IsDated empty
empty-IsDated = record { small = omega arith; dated = tt }
