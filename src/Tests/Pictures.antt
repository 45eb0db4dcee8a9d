-- ===== src/Tests/Pictures.antt =====
-- A stream of a picture that stands still.
use droidpool.Prelude.{
  ℕ, ◌+◌, ◌*◌, ◌^◌, ◌≤◌, ◌≡◌, List, false, true, [], ◌∷◌, some, codes, Text, length, arith,
}
use droidpool.Api.Wall.{Shot, StreamState}
use droidpool.Api.Pictures.{Moment, pictures}
use droidpool.Api.Pictures.Still.{pictures-AreSparse}

abbrev picture : Shot
picture = record { picture = codes "png"; width = 2; height = 3 }

abbrev moment : ℕ → Moment
moment t = record { cancelled = false; shot = some picture; waited = true; now = t; writes = 3 }

abbrev moments : List Moment
moments = moment (10 ^ 9) ∷ moment (2 * 10 ^ 9) ∷ moment (3 * 10 ^ 9) ∷ []

abbrev known : StreamState
known = record { last_sum = 3; last_sent = 0 }

abbrev sum : Text → ℕ
sum s = length s

still : (t : ℕ) (s : Shot) → (moment t).shot ≡ some s → sum s.picture ≡ 3
still t s e = ground (arith, e)

pictures-AreSparse_example :
    length (pictures sum moments known) * (2 * 10 ^ 9) + known.last_sent ≤ 3 * 10 ^ 9
pictures-AreSparse_example =
    pictures-AreSparse sum moments known (3 * 10 ^ 9)
      (
        (omega arith, still (10 ^ 9)),
        ((omega arith, still (2 * 10 ^ 9)), ((omega arith, still (3 * 10 ^ 9)), tt)),
      )
      (omega arith)
