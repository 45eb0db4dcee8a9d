-- ===== src/Scrcpy/Pointer.antt =====
-- Where the touches of internal/scrcpy/control.go land.
use droidpool.Prelude.{
  ℕ, zero, suc, ◌^◌, ◌<◌, ◌≡◌, refl, inl, inr, Bool, true, false, List, [], ◌∷◌, none, length, ltb,
  ◌==◌, arith, Bool-cases,
}
use droidpool.Scrcpy.BigEndian.{Bytes, read_be, read-be16, read-be32, read-be64}
use droidpool.Scrcpy.Control.{
  ℤ, pos, negsuc, Float, Channel, write, write_next, zero_float, touch_msg, clamp, touch,
}

-- The bytes `i` to `i + n - 1`.
pub slice : ℕ → ℕ → Bytes → Bytes
slice i n [] = []
slice zero zero (b ∷ bs) = []
slice zero (suc n) (b ∷ bs) = b ∷ slice zero n bs
slice (suc i) n (b ∷ bs) = slice i n bs

-- The number in these bytes, as the server reads it.
abbrev pub field : ℕ → ℕ → Bytes → ℕ
field i n bs = read_be 0 (slice i n bs)

clamp-bound : (x : ℤ) (limit : ℕ) → 0 < limit → clamp x limit < limit
unfolding clamp
clamp-bound (pos n) limit h = omega arith
clamp-bound (negsuc n) limit h = h

-- The type of the message and the action, in its first two bytes.
pub touch_msg-action :
    (c : Channel) (pointer action x y : ℕ) (pressure : Float) (buttons : ℕ)
    → let msg = touch_msg c pointer action x y pressure buttons in
      (field 0 1 msg ≡ 2) × (field 1 1 msg ≡ action)
unfolding touch_msg slice read_be
touch_msg-action c pointer action x y pressure buttons = (refl, omega arith)

-- What a touch says of the screen: 32 bytes, the point at 10 and 14, the screen at 18 and 20.
pub touch_msg-fields :
    (c : Channel) (pointer action x y : ℕ) (pressure : Float) (buttons : ℕ)
    → pointer < 2 ^ 64
    → x < 2 ^ 32
    → y < 2 ^ 32
    → c.width < 2 ^ 16
    → c.height < 2 ^ 16
    → let msg = touch_msg c pointer action x y pressure buttons in
      (length msg ≡ 32)
      × (field 2 8 msg ≡ pointer)
      × (field 10 4 msg ≡ x)
      × (field 14 4 msg ≡ y)
      × (field 18 2 msg ≡ c.width)
      × (field 20 2 msg ≡ c.height)
unfolding touch_msg slice
touch_msg-fields c pointer action x y pressure buttons hp hx hy hw hh = (
  refl,
  read-be64 pointer hp,
  read-be32 x hx,
  read-be32 y hy,
  read-be16 c.width hw,
  read-be16 c.height hh,
)

written-write_next :
    (fs : List Bool) (b : Bytes) (c c' : Channel)
    → write_next fs b c ≡ (none, c')
    → c'.written ≡ b ∷ c.written
written-write_next [] b c c' e = ground arith
written-write_next (false ∷ fs) b c c' e = ground arith
written-write_next (true ∷ fs) b c c' e = absurd (ground arith)

written-write : (b : Bytes) (c c' : Channel) → write b c ≡ (none, c') → c'.written ≡ b ∷ c.written
unfolding write
written-write b c c' e = elim (Bool-cases c.closed) [
  | inl shut ↦ absurd (ground (arith, shut))
  | inr open_still ↦ written-write_next c.faults b c c' (ground (arith, open_still))
]

-- A message of 32 bytes for the pointer, with a point of the screen and the screen's size.
abbrev pub IsTouchOn : Channel → ℕ → Bytes → Type 0
IsTouchOn c pointer msg =
    (length msg ≡ 32)
    × (field 2 8 msg ≡ pointer)
    × ((field 10 4 msg < c.width) × (field 14 4 msg < c.height))
    × ((field 18 2 msg ≡ c.width) × (field 20 2 msg ≡ c.height))

-- The fields of a touch at a point of the screen.
clamped-fields :
    (c : Channel) (pointer action : ℕ) (x y : ℤ) (pressure : Float) (buttons : ℕ)
    → pointer < 2 ^ 64
    → 0 < c.width
    → c.width < 2 ^ 16
    → 0 < c.height
    → c.height < 2 ^ 16
    → IsTouchOn c pointer
        (touch_msg c pointer action (clamp x c.width) (clamp y c.height) pressure buttons)
clamped-fields c pointer action x y pressure buttons hp pw hw ph hh =
    let bx = clamp-bound x c.width pw in
    let by = clamp-bound y c.height ph in
    let (n, p, fx, fy, w, h) =
      touch_msg-fields c pointer action (clamp x c.width) (clamp y c.height) pressure buttons hp
        (omega arith) (omega arith) hw hh in
    (n, p, (omega arith, omega arith), (w, h))

-- A touch that succeeds, with a pointer below 2^64 and a screen of sizes between 1 and 2^16 - 1,
-- has sent one message more: 32 bytes, for the named pointer, at a point on the screen and with
-- the size of this screen.
pub touch-lands :
    (action pointer : ℕ) (x y : ℤ) (pressure : Float) (c c' : Channel)
    → pointer < 2 ^ 64
    → 0 < c.width
    → c.width < 2 ^ 16
    → 0 < c.height
    → c.height < 2 ^ 16
    → touch action pointer x y pressure c ≡ (none, c')
    → (msg : Bytes) × (c'.written ≡ msg ∷ c.written) × IsTouchOn c pointer msg
unfolding touch
touch-lands action pointer x y pressure c c' hp pw hw ph hh e = elim (Bool-cases (ltb 2 action)) [
  | inl unknown ↦ absurd (ground (arith, unknown))
  | inr known ↦ elim (Bool-cases (action == 1)) [
    | inl up ↦ (
      touch_msg c pointer action (clamp x c.width) (clamp y c.height) zero_float 0,
      written-write _ c c' (ground (arith, known, up)),
      clamped-fields c pointer action x y zero_float 0 hp pw hw ph hh,
    )
    | inr pressed ↦ (
      touch_msg c pointer action (clamp x c.width) (clamp y c.height) pressure 1,
      written-write _ c c' (ground (arith, known, pressed)),
      clamped-fields c pointer action x y pressure 1 hp pw hw ph hh,
    )
  ]
]
