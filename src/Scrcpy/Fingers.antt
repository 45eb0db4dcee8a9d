-- ===== src/Scrcpy/Fingers.antt =====
-- What the messages of one finger in internal/scrcpy/control.go say, and when they are written.
use droidpool.Prelude.{
  ℕ, ◌^◌, ◌<◌, ◌≡◌, refl, inl, inr, Bool, true, false, List, [], ◌∷◌, none, some, length, ltb,
  arith, Bool-cases,
}
use droidpool.Scrcpy.BigEndian.{Bytes}
use droidpool.Scrcpy.Control.{
  ℤ, pos, negsuc, Channel, Outcome, Float, and_then, write, write_next, touch_msg, pointer_finger,
  check_xy,
}
use droidpool.Scrcpy.Pointer.{field, touch_msg-action, touch_msg-fields}

-- A touch of 32 bytes with this action (0 presses, 1 releases and 2 moves) and for the finger, with a
-- point of a screen and the screen's size.
abbrev pub IsFinger : ℕ → ℕ → ℕ → Bytes → Type 0
IsFinger action w h msg =
    (length msg ≡ 32)
    × (field 0 1 msg ≡ 2)
    × (field 1 1 msg ≡ action)
    × (field 2 8 msg ≡ pointer_finger)
    × (field 10 4 msg < w)
    × (field 14 4 msg < h)
    × (field 18 2 msg ≡ w)
    × (field 20 2 msg ≡ h)

abbrev pub IsAt : ℕ → ℕ → Bytes → Type 0
IsAt x y msg = (field 10 4 msg ≡ x) × (field 14 4 msg ≡ y)

-- The message was written, and the screen is as before.
abbrev pub Wrote : Bytes → Channel → Channel → Type 0
Wrote b c c' = (c'.written ≡ b ∷ c.written) × (c'.width ≡ c.width) × (c'.height ≡ c.height)

write_next-Wrote :
    (fs : List Bool) (b : Bytes) (c c' : Channel) → write_next fs b c ≡ (none, c') → Wrote b c c'
write_next-Wrote [] b c c' e = ground (arith, e)
write_next-Wrote (false ∷ fs) b c c' e = ground (arith, e)
write_next-Wrote (true ∷ fs) b c c' e = absurd (ground (arith, e))

pub write-Wrote : (b : Bytes) (c c' : Channel) → write b c ≡ (none, c') → Wrote b c c'
unfolding write
write-Wrote b c c' e = elim (Bool-cases c.closed) [
  | inl shut ↦ absurd (ground (arith, shut, e))
  | inr open_still ↦ write_next-Wrote c.faults b c c' (ground (arith, open_still, e))
]

-- A point that is let through is on the screen.
pub check_xy-point :
    (x y : ℤ) (c c' : Channel) (k : ℕ → ℕ → Channel → Outcome)
    → check_xy x y c k ≡ (none, c')
    → (a b : ℕ) × (x ≡ pos a)
      × (y ≡ pos b)
      × (a < c.width)
      × (b < c.height)
      × (k a b c ≡ (none, c'))
unfolding check_xy
check_xy-point (negsuc a) y c c' k e = absurd (ground (arith, e))
check_xy-point (pos a) (negsuc b) c c' k e = elim (Bool-cases (ltb a c.width)) [
  | inl fits ↦ absurd (ground (arith, e, fits))
  | inr out ↦ absurd (ground (arith, e, out))
]
check_xy-point (pos a) (pos b) c c' k e = elim (Bool-cases (ltb a c.width)) [
  | inr out ↦ absurd (ground (arith, e, out))
  | inl fits ↦ elim (Bool-cases (ltb b c.height)) [
    | inr under ↦ absurd (ground (arith, e, fits, under))
    | inl above ↦ (
      a,
      b,
      refl,
      refl,
      ground (arith, fits),
      ground (arith, above),
      ground (arith, e, fits, above),
    )
  ]
]

-- Of two actions of which the second follows success, both succeed if the whole does.
pub both :
    (x : Outcome) (k : Channel → Outcome) (c' : Channel)
    → and_then x k ≡ (none, c')
    → (c1 : Channel) × (x ≡ (none, c1)) × (k c1 ≡ (none, c'))
both (none, c1) k c' e = (c1, refl, e)
both (some f, c1) k c' e = absurd (ground (arith, e))

pub point-IsFinger :
    (c : Channel) (action x y : ℕ) (pressure : Float) (buttons : ℕ)
    → c.width < 2 ^ 16
    → c.height < 2 ^ 16
    → x < c.width
    → y < c.height
    → let msg = touch_msg c pointer_finger action x y pressure buttons in
      IsFinger action c.width c.height msg × IsAt x y msg
point-IsFinger c action x y pressure buttons hw hh px py =
    let (n, p, fx, fy, w, h) =
      touch_msg-fields c pointer_finger action x y pressure buttons (omega arith) (omega arith)
        (omega arith) hw hh in
    let (kind, acts) = touch_msg-action c pointer_finger action x y pressure buttons in
    ((n, kind, acts, p, omega arith, omega arith, w, h), (fx, fy))
