-- ===== src/Tests/Swipe.antt =====
-- A swipe over a small screen, where only the last product is not zero.
use droidpool.Prelude.{ℕ, ◌≤◌, ◌≡◌, refl, false, [], none, arith, if◌then◌else◌, ◌==◌}
use droidpool.Scrcpy.Control.{Channel, pos, write, touch_msg, check_xy}
use droidpool.Scrcpy.Swipe.{swipe, moves, move_msg, steps_of, swipe_time, between}
use droidpool.Scrcpy.Swiped.{IsScale, Swiped, swipe-Swiped}

abbrev jump : ℕ → ℕ → ℕ → ℕ
jump d i n = if i == n then d else 0

jump-IsScale : IsScale jump
jump-IsScale = record { within = λ d i n h. ground arith; whole = λ d n. ground arith }

abbrev screen : Channel
screen = record { width = 100; height = 200; written = []; closed = false; faults = [] }

abbrev swept : Channel
swept = (swipe jump (pos 10) (pos 20) (pos 30) (pos 5) (pos 32000000) screen).1

sweeps : swipe jump (pos 10) (pos 20) (pos 30) (pos 5) (pos 32000000) screen ≡ (none, swept)
unfolding swipe moves move_msg steps_of swipe_time between write touch_msg check_xy
sweeps = refl

swipe-Swiped_example :
    (a b a' b' : ℕ) × ((pos 10 ≡ pos a) × (pos 20 ≡ pos b) × (pos 30 ≡ pos a') × (pos 5 ≡ pos b'))
    × ((steps : ℕ) × (2 ≤ steps)
        × (steps ≤ 60)
        × Swiped jump jump-IsScale a b a' b' 100 200 steps screen swept)
swipe-Swiped_example =
    swipe-Swiped jump jump-IsScale (pos 10) (pos 20) (pos 30) (pos 5) (pos 32000000) screen swept
      (omega arith) (omega arith) sweeps
