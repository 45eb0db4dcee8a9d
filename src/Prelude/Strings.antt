-- ===== src/Prelude/Strings.antt =====
-- Functions of Go's packages strings and strconv, on byte strings. White space is that of ASCII.
use Prim.Native.Nat.{ℕ}
use mathlib.Core.Path.{◌≡◌, refl}
use mathlib.Core.Bool.{Bool, false, not, ◌&&◌, ◌||◌}
use mathlib.Core.List.{List, [], ◌∷◌, ◌++◌}
use native.Mathlib.Omega.{arith}
use droidpool.Prelude.Tests.{leb, ◌==◌, if◌then◌else◌}
use droidpool.Prelude.Lists.{All, any, select, is_empty}
use droidpool.Prelude.Bytes.{Text}

abbrev pub onto_first : ℕ → List Text → List Text
onto_first c [] = (c ∷ []) ∷ []
onto_first c (w ∷ ws) = (c ∷ w) ∷ ws

unfoldable pub split_by : (ℕ → Bool) → Text → List Text
split_by p [] = [] ∷ []
split_by p (c ∷ s) = let rest = split_by p s in if p c then [] ∷ rest else onto_first c rest

-- strings.Split at one byte
abbrev pub split : ℕ → Text → List Text
split b s = split_by (λ c. c == b) s

-- strings.Join with one byte between the parts
unfoldable pub join : ℕ → List Text → Text
join b [] = []
join b (w ∷ []) = w
join b (w ∷ v ∷ ws) = w ++ b ∷ join b (v ∷ ws)

abbrev pub is_space : ℕ → Bool
is_space c = c == 32 || (leb 9 c && leb c 13)

-- strings.Fields
unfoldable pub fields : Text → List Text
unfolding split_by
fields s = select (λ w. not (is_empty w)) (split_by is_space s)

unfoldable pub trim_left_by : (ℕ → Bool) → Text → Text
trim_left_by p [] = []
trim_left_by p (c ∷ s) = let rest = trim_left_by p s in if p c then rest else c ∷ s

unfoldable pub trim_right_by : (ℕ → Bool) → Text → Text
trim_right_by p [] = []
trim_right_by p (c ∷ s) =
    let rest = trim_right_by p s in if p c && is_empty rest then [] else c ∷ rest

-- strings.TrimSpace
unfoldable pub trim_space : Text → Text
unfolding trim_left_by trim_right_by
trim_space s = trim_right_by is_space (trim_left_by is_space s)

-- The byte is not in the text.
abbrev pub Lacks : ℕ → Text → Type 0
Lacks b s = any (λ c. c == b) s ≡ false

pub split_by-Lacks : (b : ℕ) (s : Text) → Lacks b s → split_by (λ c. c == b) s ≡ s ∷ []
unfolding split_by
split_by-Lacks b [] h = refl
split_by-Lacks b (c ∷ s) h = ground (arith, split_by-Lacks b s)

pub split_by-append :
    (b : ℕ) (s t : Text)
    → Lacks b s
    → split_by (λ c. c == b) (s ++ b ∷ t) ≡ s ∷ split_by (λ c. c == b) t
unfolding split_by
split_by-append b [] t h = ground arith
split_by-append b (c ∷ s) t h = ground (arith, split_by-append b s t)

-- Parts without the byte come back from the joined text.
pub split-join :
    (b : ℕ) (w : Text) (ws : List Text)
    → All (Lacks b) (w ∷ ws)
    → split b (join b (w ∷ ws)) ≡ w ∷ ws
unfolding join
split-join b w [] h = split_by-Lacks b w h.0
split-join b w (v ∷ ws) h =
    rw (split_by-append b w (join b (v ∷ ws)) h.0, split-join b v ws h.1) refl
