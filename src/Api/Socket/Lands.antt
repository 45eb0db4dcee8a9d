-- ===== src/Api/Socket/Lands.antt =====
-- Where the input of internal/api/ws.go ends up on the device.
use droidpool.Prelude.{
  ℕ, ◌^◌, ◌<◌, ◌≤◌, ◌≡◌, refl, ap, ◌∙◌, ◌⊎◌, sym, inl, inr, true, false, ◌&&◌, [], ◌∷◌, ◌++◌,
  Option, none, some, Text, codes, text_eq, length, arith, leb, Bool-cases,
}
use droidpool.Scrcpy.BigEndian.{Bytes, be32, be64}
use droidpool.Scrcpy.Control.{
  ℤ, pos, negsuc, Channel, Outcome, touch, text, set_clipboard, write, clipboard_text_max,
}
use droidpool.Scrcpy.Pointer.{IsTouchOn, touch-lands}
use droidpool.Scrcpy.Swipe.{Scaled}
use droidpool.Api.Input.{as_injected, Injected}
use droidpool.Api.Socket.{
  WsInput, inject_text, is_ascii, touch_action, dispatch_ws_input, with_touch, with_pointer,
  pressure_of,
}

as_injected-none : (o : Outcome) (c : Channel) → as_injected o ≡ (none, c) → o ≡ (none, c)
as_injected-none (none, d) c h = ground (arith, h)
as_injected-none (some e, d) c h = absurd (ground (arith, h))

-- A touch of the socket is one of the ten pointers, and lands.
abbrev pub Lands : ℤ → Channel → Channel → Type 0
Lands id c c' =
    (pointer : ℕ) × (id ≡ pos pointer)
    × (pointer < 10)
    × ((msg : Bytes) × (c'.written ≡ msg ∷ c.written) × IsTouchOn c pointer msg)

with_pointer-Lands :
    (i : WsInput) (a : ℕ) (id : ℤ) (c c' : Channel)
    → 0 < c.width
    → c.width < 2 ^ 16
    → 0 < c.height
    → c.height < 2 ^ 16
    → with_pointer i a id c ≡ (none, c')
    → Lands id c c'
with_pointer-Lands i a (negsuc n) c c' pw hw ph hh h = absurd (ground (arith, h))
with_pointer-Lands i a (pos n) c c' pw hw ph hh h = elim (Bool-cases (leb 10 n)) [
  | inl many ↦ absurd (ground (arith, h, many))
  | inr few ↦ (
    n,
    refl,
    ground (arith, few),
    touch-lands a n i.x i.y (pressure_of i a) c c' (ground (arith, few)) pw hw ph hh
        (as_injected-none (touch a n i.x i.y (pressure_of i a) c) c' (ground (arith, h, few))),
  )
]

with_touch-Lands :
    (i : WsInput) (a : Option ℕ) (c c' : Channel)
    → 0 < c.width
    → c.width < 2 ^ 16
    → 0 < c.height
    → c.height < 2 ^ 16
    → with_touch i a c ≡ (none, c')
    → Lands i.id c c'
with_touch-Lands i none c c' pw hw ph hh h = absurd (ground (arith, h))
with_touch-Lands i (some a) c c' pw hw ph hh h = with_pointer-Lands i a i.id c c' pw hw ph hh h

dispatch_ws_input-touch :
    (scaled : Scaled) (i : WsInput) (c : Channel)
    → i.kind ≡ codes "touch"
    → dispatch_ws_input scaled i c ≡ with_touch i (touch_action i.action) c
unfolding dispatch_ws_input text_eq
dispatch_ws_input-touch scaled i c kind = rw kind refl

-- A touch from the socket that is dispatched without an error names one of the pointers 0 to 9
-- and, on a screen of sizes between 1 and 2^16 - 1, has sent one message more: 32 bytes, for this
-- pointer, at a point on the screen and with the size of this screen.
pub dispatch_ws_input-Lands :
    (scaled : Scaled) (i : WsInput) (c c' : Channel)
    → i.kind ≡ codes "touch"
    → 0 < c.width
    → c.width < 2 ^ 16
    → 0 < c.height
    → c.height < 2 ^ 16
    → dispatch_ws_input scaled i c ≡ (none, c')
    → Lands i.id c c'
dispatch_ws_input-Lands scaled i c c' kind pw hw ph hh h =
    with_touch-Lands i (touch_action i.action) c c' pw hw ph hh
      (sym (dispatch_ws_input-touch scaled i c kind) ∙ h)

-- The channel is open and its next write succeeds.
abbrev pub IsWritable : Channel → Type 0
IsWritable c = (c.closed ≡ false) × (c.faults ≡ [])

write-IsWritable :
    (b : Bytes) (c : Channel)
    → IsWritable c
    → write b c ≡ (none, record c { written = b ∷ c.written })
unfolding write
write-IsWritable b c (still_open, no_fault) = rw (still_open, no_fault) refl

abbrev pub typed : Text → Bytes
typed s = 1 ∷ (be32 (length s) ++ s)

abbrev pub pasted : Text → Bytes
pasted s = 9 ∷ (be64 0 ++ (1 ∷ (be32 (length s) ++ s)))

abbrev pub sent : Bytes → Channel → Injected
sent b c = (none, record c { written = b ∷ c.written })

-- Where the channel can be written, a text of 1 to clipboard_text_max bytes is sent whole in one
-- message: typed only if it is ASCII and has at most 300 bytes, and pasted over the clipboard only
-- if not both hold.
pub inject_text-Carries :
    (s : Text) (ch : Channel)
    → IsWritable ch
    → 0 < length s
    → length s ≤ clipboard_text_max
    → (is_ascii s ≡ true) × (length s ≤ 300) × (inject_text s ch ≡ sent (typed s) ch)
      ⊎ (is_ascii s && leb (length s) 300 ≡ false) × (inject_text s ch ≡ sent (pasted s) ch)
unfolding inject_text text set_clipboard
inject_text-Carries [] ch h some_text fits = absurd (omega arith)
inject_text-Carries (c ∷ s) ch h some_text fits =
    let typing = ap as_injected (write-IsWritable (typed (c ∷ s)) ch h) in
    let pasting = ap as_injected (write-IsWritable (pasted (c ∷ s)) ch h) in
    elim (Bool-cases (leb (length (c ∷ s)) 300 && is_ascii (c ∷ s))) [
      | inl keys ↦ inl (ground (arith, keys), ground (arith, keys), ground (arith, keys, typing))
      | inr no_keys ↦ inr (ground (arith, no_keys), ground (arith, no_keys, fits, pasting))
    ]
