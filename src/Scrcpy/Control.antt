-- ===== src/Scrcpy/Control.antt =====
-- internal/scrcpy/control.go: the messages that inject input, and the clamping of what they carry.
-- A finite float is m / 2 ^ e with its sign. `Swipe` is in Scrcpy/Swipe.
use droidpool.Prelude.{
  ℕ, ◌+◌, ◌-◌, ◌*◌, ◌/◌, ◌%◌, ◌^◌, min, Bool, true, false, List, [], ◌∷◌, ◌++◌, Option, none, some,
  length, leb, ltb, ◌==◌, if◌then◌else◌, Text, is_empty,
}
pub use droidpool.Prelude.Int.{ℤ, pos, negsuc}
use droidpool.Scrcpy.BigEndian.{Bytes, be16, be32, be64}

pub data Float : Type 0 where
  nonneg negative : ℕ → ℕ → Float

-- floor(f * 2^16), and the largest value from 1 on.
unfoldable pub float_to_u16 : Float → ℕ
float_to_u16 (negative m e) = 0
float_to_u16 (nonneg m e) = if leb (2 ^ e) m then 0xffff else m * 2 ^ 16 / 2 ^ e

-- The bits of floor(f * 2^15) as an int16, of f clamped to -1 and 1.
unfoldable pub float_to_i16 : Float → ℕ
float_to_i16 (nonneg m e) = if leb (2 ^ e) m then 0x7fff else min (m * 2 ^ 15 / 2 ^ e) 0x7fff
float_to_i16 (negative m e) =
    if leb (2 ^ e) m then 0x8000 else (2 ^ 16 - (m * 2 ^ 15 + (2 ^ e - 1)) / 2 ^ e) % 2 ^ 16

-- The session as its controller sees it: the screen, the messages written, newest first, whether it
-- is closed, and which of the next writes fail.
pub record Channel : Type 0 where
  pub width : ℕ
  pub height : ℕ
  pub written : List Bytes
  pub closed : Bool
  pub faults : List Bool

pub data ControlError : Type 0 where
  session_closed write_failed off_screen too_long unknown_action : ControlError

abbrev pub Outcome : Type 0
Outcome = Option ControlError × Channel

abbrev pub write_next : List Bool → Bytes → Channel → Outcome
write_next [] b c = (none, record c { written = b ∷ c.written })
write_next (false ∷ fs) b c = (none, record c { written = b ∷ c.written; faults = fs })
write_next (true ∷ fs) b c = (some write_failed, record c { closed = true; faults = fs })

-- A failed write closes the session.
unfoldable pub write : Bytes → Channel → Outcome
write b c = if c.closed then (some session_closed, c) else write_next c.faults b c

-- `if err := …; err != nil { return err }`
abbrev pub and_then : Outcome → (Channel → Outcome) → Outcome
and_then (none, c) k = k c
and_then (some e, c) k = (some e, c)

abbrev pub pointer_finger : ℕ
pointer_finger = 2 ^ 64 - 2

unfoldable pub touch_msg : Channel → ℕ → ℕ → ℕ → ℕ → Float → ℕ → Bytes
touch_msg c pointer action x y pressure buttons =
    2
    ∷ action
    ∷ (be64 pointer
        ++ (be32 x
            ++ (be32 y
                ++ (be16 c.width
                    ++ (be16 c.height
                        ++ (be16 (float_to_u16 pressure) ++ (be32 buttons ++ be32 buttons)))))))

abbrev pub in_range : ℤ → ℕ → Option ℕ
in_range (negsuc n) limit = none
in_range (pos n) limit = if ltb n limit then some n else none

abbrev pub at_point : Channel → Option ℕ → Option ℕ → (ℕ → ℕ → Channel → Outcome) → Outcome
at_point c (some x) (some y) k = k x y c
at_point c _ _ k = (some off_screen, c)

-- `checkXY`, and what follows it.
unfoldable pub check_xy : ℤ → ℤ → Channel → (ℕ → ℕ → Channel → Outcome) → Outcome
check_xy x y c k = at_point c (in_range x c.width) (in_range y c.height) k

abbrev pub one : Float
one = nonneg 1 0

abbrev pub zero_float : Float
zero_float = nonneg 0 0

unfoldable pub tap : ℤ → ℤ → Channel → Outcome
unfolding check_xy touch_msg write
tap x y c = check_xy x y c λ px py c1.
    and_then (write (touch_msg c1 pointer_finger 0 px py one 1) c1)
      λ c2. write (touch_msg c2 pointer_finger 1 px py zero_float 0) c2

unfoldable pub key_msg : ℕ → ℕ → ℕ → Bytes
key_msg action keycode meta = 0 ∷ action ∷ (be32 keycode ++ (be32 0 ++ be32 meta))

unfoldable pub key : ℕ → Channel → Outcome
unfolding key_msg write
key keycode c = and_then (write (key_msg 0 keycode 0) c) (write (key_msg 1 keycode 0))

unfoldable pub text : Text → Channel → Outcome
unfolding write
text s c =
    if is_empty s
    then (none, c)
    else if ltb 300 (length s)
    then (some too_long, c)
    else write (1 ∷ (be32 (length s) ++ s)) c

-- max(0, min(x, limit - 1)): a negative coordinate is 0, and so is any on a screen of size 0.
unfoldable pub clamp : ℤ → ℕ → ℕ
clamp (negsuc n) limit = 0
clamp (pos n) limit = min n (limit - 1)

-- Actions 0, 1 and 2 are down, up and move.
unfoldable pub touch : ℕ → ℕ → ℤ → ℤ → Float → Channel → Outcome
unfolding clamp touch_msg write
touch action pointer x y pressure c =
    if ltb 2 action
    then (some unknown_action, c)
    else if action == 1
    then write (touch_msg c pointer action (clamp x c.width) (clamp y c.height) zero_float 0) c
    else write (touch_msg c pointer action (clamp x c.width) (clamp y c.height) pressure 1) c

unfoldable pub scroll_msg : Channel → ℕ → ℕ → Float → Float → Bytes
scroll_msg c x y hscroll vscroll =
    3
    ∷ (be32 x
        ++ (be32 y
            ++ (be16 c.width
                ++ (be16 c.height
                    ++ (be16 (float_to_i16 hscroll) ++ (be16 (float_to_i16 vscroll) ++ be32 0))))))

unfoldable pub scroll : ℤ → ℤ → Float → Float → Channel → Outcome
unfolding clamp scroll_msg write
scroll x y hscroll vscroll c =
    write (scroll_msg c (clamp x c.width) (clamp y c.height) hscroll vscroll) c

unfoldable pub key_event : ℕ → ℕ → ℕ → Channel → Outcome
unfolding key_msg write
key_event action keycode meta c =
    if ltb 1 action then (some unknown_action, c) else write (key_msg action keycode meta) c

abbrev pub clipboard_text_max : ℕ
clipboard_text_max = 2 ^ 18 - 14

unfoldable pub set_clipboard : Text → Bool → Channel → Outcome
unfolding write
set_clipboard s paste c =
    if ltb clipboard_text_max (length s)
    then (some too_long, c)
    else write (9 ∷ (be64 0 ++ ((if paste then 1 else 0) ∷ (be32 (length s) ++ s)))) c

unfoldable pub get_clipboard : ℕ → Channel → Outcome
unfolding write
get_clipboard copy_key c = write (8 ∷ copy_key ∷ []) c
