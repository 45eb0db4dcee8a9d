-- ===== src/Pool/Time.antt =====
-- Go's `time.Time` as far as the pool uses it: the zero time, or an instant in nanoseconds since
-- 1970. Instants before 1970 are not modelled. Durations are nanoseconds and not negative.
use droidpool.Prelude.{
  ℕ, ◌+◌, ◌-◌, ◌*◌, ◌/◌, ◌%◌, ◌<◌, ◌≤◌, ◌≡◌, Bool, true, false, arith, ltb, leb, ◌==◌,
  if◌then◌else◌,
}

pub data Time : Type 0 where
  zero_time : Time
  at : ℕ → Time

abbrev pub second : ℕ
second = 1_000_000_000

abbrev pub minute : ℕ
minute = 60 * second

abbrev pub is_zero : Time → Bool
is_zero zero_time = true
is_zero (at n) = false

-- t.Before(u)
abbrev pub before : Time → Time → Bool
before zero_time zero_time = false
before zero_time (at n) = true
before (at m) zero_time = false
before (at m) (at n) = ltb m n

-- now.Sub(t) >= d, at an instant `t` and a positive `d`: a difference below zero is none.
abbrev pub elapsed : Time → Time → ℕ → Bool
elapsed (at now) (at t) d = leb d (now - t)
elapsed _ _ d = false

-- t.Add(d), at an instant.
abbrev pub add : Time → ℕ → Time
add zero_time d = zero_time
add (at n) d = at (n + d)

-- The column value of a time: its Unix second, 0 for the zero time.
unfoldable pub unix : Time → ℕ
unix zero_time = 0
unix (at n) = n / second

unfoldable pub from_unix : ℕ → Time
from_unix v = if v == 0 then zero_time else at (v * second)

-- What a column holds comes back as it was.
pub unix-from_unix : (v : ℕ) → unix (from_unix v) ≡ v
unfolding unix from_unix
unix-from_unix v = ground arith

-- A time from second 1 of 1970 on that went through a column lost less than a second and stands at
-- the full second.
pub from_unix-unix :
    (n : ℕ)
    → second ≤ n
    → (from_unix (unix (at n)) ≡ at (n - n % second)) × (n - (n - n % second) < second)
unfolding unix from_unix
from_unix-unix n h = ground arith
