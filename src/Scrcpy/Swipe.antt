-- ===== src/Scrcpy/Swipe.antt =====
-- `Swipe` of internal/scrcpy/control.go. The product of a distance and a fraction of two counts, in
-- floats and cut off to an integer, is a parameter, `scaled`: of a negative distance it is the
-- negative. The pauses between the moves are left out.
use droidpool.Prelude.{ℕ, zero, suc, ◌+◌, ◌-◌, ◌*◌, ◌/◌, ◌^◌, none, leb, min, max, if◌then◌else◌}
use droidpool.Prelude.Int.{ℤ, pos, negsuc}
use droidpool.Scrcpy.BigEndian.{Bytes}
use droidpool.Scrcpy.Control.{
  Channel, Outcome, and_then, write, touch_msg, pointer_finger, one, zero_float, check_xy,
}

-- The duration in nanoseconds, and 300 milliseconds for one that is not positive.
unfoldable pub swipe_time : ℤ → ℕ
swipe_time (pos zero) = 300 * 10 ^ 6
swipe_time (pos (suc n)) = suc n
swipe_time (negsuc n) = 300 * 10 ^ 6

-- About 60 moves a second, at least 2 and at most 60.
unfoldable pub steps_of : ℕ → ℕ
steps_of duration = min (max (duration / (16 * 10 ^ 6)) 2) 60

-- A distance, i and the number of steps give the part of the distance that is gone in i steps.
abbrev pub Scaled : Type 0
Scaled = ℕ → ℕ → ℕ → ℕ

module _ (scaled : Scaled) where
  -- x1 + int(float64(x2-x1)*t), for t of i / steps
  unfoldable pub between : ℕ → ℕ → ℕ → ℕ → ℕ
  between a b i steps = if leb a b then a + scaled (b - a) i steps else a - scaled (a - b) i steps

  unfoldable pub move_msg : Channel → ℕ → ℕ → ℕ → ℕ → ℕ → ℕ → Bytes
  unfolding between touch_msg
  move_msg c x1 y1 x2 y2 i steps =
      touch_msg c pointer_finger 2 (between x1 x2 i steps) (between y1 y2 i steps) one 1

  -- for i := 1; i <= steps; i++, with `k` rounds from `i` on
  unfoldable pub moves : ℕ → ℕ → ℕ → ℕ → ℕ → ℕ → ℕ → Channel → Outcome
  unfolding move_msg write
  moves x1 y1 x2 y2 steps i zero c = (none, c)
  moves x1 y1 x2 y2 steps i (suc k) c =
      and_then (write (move_msg c x1 y1 x2 y2 i steps) c) (moves x1 y1 x2 y2 steps (i + 1) k)

  abbrev pub swipe_between : ℤ → ℕ → ℕ → ℕ → ℕ → Channel → Outcome
  swipe_between duration x1 y1 x2 y2 c =
      and_then (write (touch_msg c pointer_finger 0 x1 y1 one 1) c) λ c1.
        and_then
          (moves x1 y1 x2 y2 (steps_of (swipe_time duration)) 1 (steps_of (swipe_time duration)) c1)
          λ c2. write (touch_msg c2 pointer_finger 1 x2 y2 zero_float 0) c2

  unfoldable pub swipe : ℤ → ℤ → ℤ → ℤ → ℤ → Channel → Outcome
  unfolding check_xy steps_of swipe_time moves touch_msg write
  swipe x1 y1 x2 y2 duration c =
      check_xy x1 y1 c λ a b c1. check_xy x2 y2 c1 (swipe_between duration a b)
