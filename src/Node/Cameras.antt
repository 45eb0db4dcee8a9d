-- ===== src/Node/Cameras.antt =====
-- Which video nodes a device's camera configuration hides, in internal/node/camera.go.
use droidpool.Prelude.{
  ℕ, zero, suc, ◌+◌, ◌^◌, ◌<◌, ◌≡◌, refl, true, false, not, ◌&&◌, List, [], ◌∷◌, ◌++◌, arith, any,
  leb, ltb, ◌==◌, if◌then◌else◌, Text,
}
use droidpool.Prelude.Decimal.{decimal, is_digit, scan-decimal_end, decimal-digits}
use droidpool.Prelude.Int.{pos}
use droidpool.Pool.Identity.{all_bytes}
use droidpool.Manager.World.{Manager}
use droidpool.Manager.Index.{device_id}
use droidpool.Node.Host.{Node}
use droidpool.Node.Names.{trailing_digits, trailing_number}
use droidpool.Node.Camera.{ignored_id, ignores_from, ignores}

no_digits_across : (s t : Text) → all_bytes is_digit (s ++ b'-' ∷ t) ≡ false
unfolding is_digit
no_digits_across [] t = refl
no_digits_across (c ∷ s) t = ground (arith, no_digits_across s t)

trailing_digits-behind :
    (s t : Text) → all_bytes is_digit t ≡ true → trailing_digits (s ++ b'-' ∷ t) ≡ trailing_digits t
unfolding trailing_digits
trailing_digits-behind [] t h = refl
trailing_digits-behind (c ∷ s) t h =
    ground (arith, no_digits_across (c ∷ s) t, trailing_digits-behind s t h)

trailing_digits-all : (t : Text) → all_bytes is_digit t ≡ true → trailing_digits t ≡ t
unfolding trailing_digits
trailing_digits-all [] h = refl
trailing_digits-all (c ∷ t) h = rw h refl

-- A device's own number stands at the end of its id.
pub trailing_number-device_id :
    (m : Manager) (i : ℕ) → i < 2 ^ 63 → trailing_number (device_id m i) ≡ i
unfolding trailing_number device_id
trailing_number-device_id m i small =
    rw
      (
        trailing_digits-behind m.node_name (decimal i) (decimal-digits i),
        trailing_digits-all (decimal i) (decimal-digits i),
        scan-decimal_end i,
      )
      (ground (arith, small))

-- The entries for these numbers, one after the other.
abbrev pub entries : List ℕ → Text
entries [] = []
entries (x ∷ xs) = ignored_id (pos x) ++ entries xs

abbrev but : ℕ → ℕ → List ℕ → List ℕ
but i mine xs = if i == mine then xs else i ∷ xs

abbrev numbers_from : ℕ → ℕ → ℕ → List ℕ
numbers_from zero i mine = []
numbers_from (suc k) i mine = but i mine (numbers_from k (i + 1) mine)

entries-numbers :
    (k i mine : ℕ) → ignores_from k (pos i) (pos mine) ≡ entries (numbers_from k i mine)
unfolding ignores_from
entries-numbers zero i mine = refl
entries-numbers (suc k) i mine = ground (arith, entries-numbers k (i + 1) mine)

any-numbers :
    (k i mine x : ℕ)
    → any (λ y. y == x) (numbers_from k i mine) ≡ (leb i x && ltb x (i + k) && not (x == mine))
any-numbers zero i mine x = ground arith
any-numbers (suc k) i mine x = ground (arith, any-numbers k (i + 1) mine x)

-- With a base that is not negative, the camera configuration of the device with number i ignores
-- exactly the video nodes from the base to the base plus 16 other than the base plus i, for i below
-- 2^63.
pub ignores-Isolates :
    (n : Node) (m : Manager) (b i : ℕ)
    → n.camera_video_base ≡ pos b
    → i < 2 ^ 63
    → (l : List ℕ) × (ignores n (device_id m i) ≡ entries l)
      × ((x : ℕ) → any (λ y. y == x) l ≡ (leb b x && ltb x (b + 17) && not (x == b + i)))
unfolding ignores
ignores-Isolates n m b i e small = (
  numbers_from 17 b (b + i),
  rw (e, trailing_number-device_id m i small) (entries-numbers 17 b (b + i)),
  any-numbers 17 b (b + i),
)
