-- ===== src/Scrcpy/Swiped.antt =====
-- The messages of a swipe in internal/scrcpy/control.go.
use droidpool.Prelude.{
  ℕ, zero, suc, ◌+◌, ◌-◌, ◌^◌, ◌<◌, ◌≤◌, ◌≡◌, refl, sym, ap, ◌∙◌, List, [], ◌∷◌, ◌++◌, none, All,
  length, length-append, arith,
}
use droidpool.Scrcpy.BigEndian.{Bytes}
use droidpool.Scrcpy.Control.{
  ℤ, pos, Channel, Float, and_then, write, touch_msg, pointer_finger, one, zero_float,
}
use droidpool.Scrcpy.Fingers.{IsFinger, IsAt, write-Wrote, both, check_xy-point, point-IsFinger}
use droidpool.Scrcpy.Swipe.{swipe_time, steps_of, between, move_msg, moves, swipe_between, swipe}

-- What the products are taken for: no more than the distance, and all of it at the end.
pub record IsScale (scaled : ℕ → ℕ → ℕ → ℕ) : Type 0 where
  pub within : (d i n : ℕ) → i ≤ n → scaled d i n ≤ d
  pub whole : (d n : ℕ) → scaled d n n ≡ d

module _ (scaled : ℕ → ℕ → ℕ → ℕ) (s : IsScale scaled) where
  between-within :
      (a b i n limit : ℕ) → i ≤ n → a < limit → b < limit → between scaled a b i n < limit
  unfolding between
  between-within a b i n limit le ha hb =
      let p = s.within (b - a) i n le in let q = s.within (a - b) i n le in ground (arith, p, q)

  between-whole : (a b n : ℕ) → between scaled a b n n ≡ b
  unfolding between
  between-whole a b n =
      let p = s.whole (b - a) n in let q = s.whole (a - b) n in ground (arith, p, q)

  module _ (x1 y1 x2 y2 w h steps : ℕ) where
    -- The points are on the screen, whose sizes are those of a 16 bit number.
    abbrev IsOnScreen : Type 0
    IsOnScreen = (w < 2 ^ 16) × (h < 2 ^ 16) × (x1 < w) × (y1 < h) × (x2 < w) × (y2 < h)

    -- The newest of the moves, if there is one, is at the end of the swipe.
    abbrev ReachesEnd : List Bytes → Type 0
    ReachesEnd [] = Unit
    ReachesEnd (b ∷ bs) = IsAt x2 y2 b

    ReachesEnd-append :
        (bs : List Bytes) (b : Bytes)
        → ReachesEnd bs
        → (length bs ≡ 0 → IsAt x2 y2 b)
        → ReachesEnd (bs ++ b ∷ [])
    ReachesEnd-append [] b e last = last refl
    ReachesEnd-append (c ∷ bs) b e last = e

    abbrev Moved : ℕ → Channel → Channel → Type 0
    Moved k c c' =
        (bs : List Bytes) × (c'.written ≡ bs ++ c.written)
        × All (IsFinger 2 w h) bs
        × (length bs ≡ k)
        × ReachesEnd bs
        × (c'.width ≡ w)
        × (c'.height ≡ h)

    All-append :
        (bs : List Bytes) (b : Bytes)
        → All (IsFinger 2 w h) bs
        → IsFinger 2 w h b
        → All (IsFinger 2 w h) (bs ++ b ∷ [])
    All-append [] b hs hb = (hb, tt)
    All-append (c ∷ bs) b (hc, hs) hb = (hc, All-append bs b hs hb)

    append-one : (bs rest : List Bytes) (b : Bytes) → bs ++ (b ∷ rest) ≡ (bs ++ b ∷ []) ++ rest
    append-one [] rest b = refl
    append-one (c ∷ bs) rest b = ap (λ t. c ∷ t) (append-one bs rest b)

    point-On :
        (c : Channel) (action x y : ℕ) (pressure : Float) (buttons : ℕ)
        → c.width ≡ w
        → c.height ≡ h
        → w < 2 ^ 16
        → h < 2 ^ 16
        → x < w
        → y < h
        → let msg = touch_msg c pointer_finger action x y pressure buttons in
          IsFinger action w h msg × IsAt x y msg
    point-On c action x y pressure buttons ew eh bw bh px py =
        let ((n, kind, acts, p, ax, ay, fw, fh), place) =
          point-IsFinger c action x y pressure buttons (omega arith) (omega arith) (omega arith)
            (omega arith) in
        ((n, kind, acts, p, omega arith, omega arith, fw ∙ ew, fh ∙ eh), place)

    moves-Moved :
        (i k : ℕ) (c c' : Channel)
        → IsOnScreen
        → c.width ≡ w
        → c.height ≡ h
        → i + k ≡ steps + 1
        → moves scaled x1 y1 x2 y2 steps i k c ≡ (none, c')
        → Moved k c c'
    unfolding moves move_msg
    moves-Moved i zero c c' on ew eh count e =
        let same : c ≡ c' = ground (arith, e) in
        (
          [],
          ap (λ (t : Channel). t.written) (sym same),
          tt,
          refl,
          tt,
          ap (λ (t : Channel). t.width) (sym same) ∙ ew,
          ap (λ (t : Channel). t.height) (sym same) ∙ eh,
        )
    moves-Moved i (suc k) c c' (bw, bh, px1, py1, px2, py2) ew eh count e =
        let b = move_msg scaled c x1 y1 x2 y2 i steps in
        let (c1, first, rest) = both (write b c) (moves scaled x1 y1 x2 y2 steps (i + 1) k) c' e in
        let (written, width, height) = write-Wrote b c c1 first in
        let (bs, all, fingers, number, ends, w', h') =
          moves-Moved (i + 1) k c1 c' (bw, bh, px1, py1, px2, py2) (width ∙ ew) (height ∙ eh)
            (omega arith) rest in
        let (finger, place) =
          point-On c 2 (between scaled x1 x2 i steps) (between scaled y1 y2 i steps) one 1 ew eh bw
            bh (between-within x1 x2 i steps w (omega arith) px1 px2)
            (between-within y1 y2 i steps h (omega arith) py1 py2) in
        let last : length bs ≡ 0 → IsAt x2 y2 b = λ over.
          let at_end : i ≡ steps = omega arith in
          (
            place.0 ∙ ap (λ t. between scaled x1 x2 t steps) at_end ∙ between-whole x1 x2 steps,
            place.1 ∙ ap (λ t. between scaled y1 y2 t steps) at_end ∙ between-whole y1 y2 steps,
          ) in
        (
          bs ++ b ∷ [],
          all ∙ ap (λ t. bs ++ t) written ∙ append-one bs c.written b,
          All-append bs b fingers finger,
          omega (arith, length-append bs (b ∷ []), number),
          ReachesEnd-append bs b ends last,
          w',
          h',
        )

    -- What a swipe has sent: its end on top of the moves on top of its start.
    abbrev pub Swiped : Channel → Channel → Type 0
    Swiped c c' =
        (start end : Bytes) × ((bs : List Bytes) × (c'.written ≡ end ∷ (bs ++ start ∷ c.written))
          × (IsFinger 0 w h start × IsAt x1 y1 start)
          × (IsFinger 1 w h end × IsAt x2 y2 end)
          × All (IsFinger 2 w h) bs
          × (length bs ≡ steps)
          × ReachesEnd bs)

    swiped :
        (c c' : Channel)
        → IsOnScreen
        → c.width ≡ w
        → c.height ≡ h
        → and_then (write (touch_msg c pointer_finger 0 x1 y1 one 1) c) (λ c1.
          and_then
            (moves scaled x1 y1 x2 y2 steps 1 steps c1)
            λ c2. write (touch_msg c2 pointer_finger 1 x2 y2 zero_float 0) c2)
          ≡ (none, c')
        → Swiped c c'
    swiped c c' (bw, bh, px1, py1, px2, py2) ew eh e =
        let (c1, first, rest) = both _ _ c' e in
        let (written, width, height) =
          write-Wrote (touch_msg c pointer_finger 0 x1 y1 one 1) c c1 first in
        let (c2, middle, final) = both (moves scaled x1 y1 x2 y2 steps 1 steps c1) _ c' rest in
        let (bs, all, fingers, number, ends, w', h') =
          moves-Moved 1 steps c1 c2 (bw, bh, px1, py1, px2, py2) (width ∙ ew) (height ∙ eh)
            (omega arith) middle in
        let (written', width', height') =
          write-Wrote (touch_msg c2 pointer_finger 1 x2 y2 zero_float 0) c2 c' final in
        (
          touch_msg c pointer_finger 0 x1 y1 one 1,
          touch_msg c2 pointer_finger 1 x2 y2 zero_float 0,
          (
            bs,
            written'
                ∙ ap (λ t. touch_msg c2 pointer_finger 1 x2 y2 zero_float 0 ∷ t)
                    (all ∙ ap (λ t. bs ++ t) written),
            point-On c 0 x1 y1 one 1 ew eh bw bh px1 py1,
            point-On c2 1 x2 y2 zero_float 0 w' h' bw bh px2 py2,
            fingers,
            number,
            ends,
          ),
        )

  steps_of-between : (d : ℕ) → (2 ≤ steps_of d) × (steps_of d ≤ 60)
  unfolding steps_of
  steps_of-between d = (omega arith, omega arith)

  -- A swipe that returns without an error, on a screen of sizes below 2^16, went from a point to a
  -- point of the screen and wrote, on top of what the channel had and for the finger pointer,
  -- first a touch message of the action down at the first point, then 2 to 60 of the action move
  -- at points of the screen, the last of them at the second point, and last one of the action up
  -- at the second point, each of 32 bytes; where a product of a distance with a part of the way is
  -- no longer than the distance, and with all of the way is the distance.
  pub swipe-Swiped :
      (x1 y1 x2 y2 duration : ℤ) (c c' : Channel)
      → c.width < 2 ^ 16
      → c.height < 2 ^ 16
      → swipe scaled x1 y1 x2 y2 duration c ≡ (none, c')
      → (a b a' b' : ℕ) × ((x1 ≡ pos a) × (y1 ≡ pos b) × (x2 ≡ pos a') × (y2 ≡ pos b'))
        × ((steps : ℕ) × (2 ≤ steps) × (steps ≤ 60) × Swiped a b a' b' c.width c.height steps c c')
  unfolding swipe
  swipe-Swiped x1 y1 x2 y2 duration c c' bw bh e =
      let (a, b, ea, eb, la, lb, inner) = check_xy-point x1 y1 c c' _ e in
      let (a', b', ea', eb', la', lb', core) =
        check_xy-point x2 y2 c c' (swipe_between scaled duration a b) inner in
      let steps = steps_of (swipe_time duration) in
      let (least, most) = steps_of-between (swipe_time duration) in
      (
        a,
        b,
        a',
        b',
        (ea, eb, ea', eb'),
        (
          steps,
          least,
          most,
          swiped a b a' b' c.width c.height steps c c' (bw, bh, la, lb, la', lb') refl refl core,
        ),
      )
