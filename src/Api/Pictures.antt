-- ===== src/Api/Pictures.antt =====
-- internal/api/wall.go: `handleStream`, the pictures of a device as the parts of one answer. What
-- the device shows and what the connection does is an argument, and so is the checksum.
pub mod Still
use droidpool.Prelude.{
  ℕ, zero, suc, ◌+◌, ◌-◌, Bool, true, false, List, [], ◌∷◌, ◌++◌, Option, none, some, if◌then◌else◌,
  ltb, ◌==◌, Text, codes, length,
}
use droidpool.Prelude.Decimal.{decimal}
use droidpool.Exec.{Result, ok, err}
use droidpool.Pool.Lease.{Device}
use droidpool.Scrcpy.BigEndian.{Bytes}
use droidpool.Api.Wall.{Shot, StreamState, stream_turn, enter_stream, atoi_default}

abbrev crlf : Text
crlf = 13 ∷ 10 ∷ []

-- A turn of the loop: whether the request is over, the screenshot if one was taken, whether the
-- pause after a failed one ends before the request, the time of the comparison, and how many of the
-- three writes of a part succeed.
pub record Moment : Type 0 where
  pub cancelled : Bool
  pub shot : Option Shot
  pub waited : Bool
  pub now : ℕ
  pub writes : ℕ

unfoldable pub picture_head : Bool → Shot → Text
picture_head png s =
    codes "--droidpoolframe"
    ++ (crlf
        ++ (codes "Content-Type: "
            ++ ((if png then codes "image/png" else codes "image/jpeg")
                ++ (crlf
                    ++ (codes "Content-Length: "
                        ++ (decimal (length s.picture)
                            ++ (crlf
                                ++ (codes "X-Device-Width: "
                                    ++ (decimal s.width
                                        ++ (crlf
                                            ++ (codes "X-Device-Height: "
                                                ++ (decimal s.height ++ (crlf ++ crlf)))))))))))))

-- What of a part is written.
unfoldable pub picture_part : Bool → Shot × ℕ → Bytes
unfolding picture_head
picture_part png (s, zero) = []
picture_part png (s, suc zero) = picture_head png s
picture_part png (s, suc (suc zero)) = picture_head png s ++ s.picture
picture_part png (s, suc (suc (suc n))) = picture_head png s ++ (s.picture ++ crlf)

pub data PictureAnswer : Type 0 where
  no_adb missing no_stream too_many_streams : PictureAnswer
  streamed : Bytes → PictureAnswer

module _ (checksum : Text → ℕ) where
  -- The picture that is sent, whether the loop goes on, and what it knows then.
  abbrev pub compared : Shot → ℕ → Bool × StreamState → Option (Shot × ℕ) × Bool × StreamState
  compared s n (false, st) = (none, true, st)
  compared s n (true, st) = (some (s, n), ltb 2 n, st)

  abbrev taken : Moment → StreamState → Option Shot → Option (Shot × ℕ) × Bool × StreamState
  taken m st none = (none, m.waited, st)
  taken m st (some s) = compared s m.writes (stream_turn (checksum s.picture) m.now st)

  unfoldable pub picture_turn : Moment → StreamState → Option (Shot × ℕ) × Bool × StreamState
  unfolding stream_turn
  picture_turn m st = if m.cancelled then (none, false, st) else taken m st m.shot

  abbrev pub with_sent : Option (Shot × ℕ) → List (Shot × ℕ) → List (Shot × ℕ)
  with_sent none rest = rest
  with_sent (some p) rest = p ∷ rest

  unfoldable pub pictures : List Moment → StreamState → List (Shot × ℕ)
  unfolding picture_turn
  pictures [] st = []
  pictures (m ∷ ms) st =
      let (sent, more, st') = picture_turn m st in
      let rest = pictures ms st' in with_sent sent (if more then rest else [])

  unfoldable pub picture_bytes : Bool → List (Shot × ℕ) → Bytes
  unfolding picture_part
  picture_bytes png [] = []
  picture_bytes png (p ∷ ps) = picture_part png p ++ picture_bytes png ps

  -- `open_now` streams are open. `others` is what other streams do to their number while this one is
  -- sent.
  unfoldable pub handle_stream :
      Bool → Result Device → Bool → Text → ℕ → List Moment → (ℕ → ℕ) → ℕ → PictureAnswer × ℕ
  unfolding enter_stream atoi_default pictures picture_bytes
  handle_stream false found flushes w start moments others open_now = (no_adb, open_now)
  handle_stream true (err e) flushes w start moments others open_now = (missing, open_now)
  handle_stream true (ok d) flushes w start moments others open_now =
      if flushes then entered (enter_stream open_now) else (no_stream, open_now)
    where
      entered : Bool × ℕ → PictureAnswer × ℕ
      entered (false, n) = (too_many_streams, n)
      entered (true, n) = (
        streamed (
            picture_bytes (atoi_default w 0 == 0)
              (pictures moments (record { last_sum = 0; last_sent = start }))),
        others n - 1,
      )
