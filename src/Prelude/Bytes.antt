-- ===== src/Prelude/Bytes.antt =====
-- Go strings as lists of bytes, with equality and the byte order by which SQLite sorts text.
use Prim.Native.Nat.{ℕ, ◌+◌, ◌/◌, ◌%◌}
use Prim.Native.Char.{code}
use Prim.Native.String.{String}
use mathlib.Core.Path.{◌≡◌, refl}
use mathlib.Core.Logic.{◌↔◌, ◌⊎◌, inl, inr}
use mathlib.Core.Bool.{Bool, true, false, ◌&&◌, ◌||◌}
use mathlib.Core.List.{List, [], ◌∷◌, ◌++◌}
use native.Mathlib.Omega.{arith}
use droidpool.Prelude.Tests.{ltb, ◌==◌, if◌then◌else◌}

abbrev pub Text : Type 0
Text = List ℕ

-- The bytes of an ASCII literal.
abbrev pub codes : String → Text
codes String.[] = []
codes (String.◌∷◌ c s) = code c ∷ codes s

-- A character in UTF-8.
abbrev utf8_char : ℕ → Text
utf8_char n =
    if ltb n 0x80
    then n ∷ []
    else if ltb n 0x800
    then (0xc0 + n / 64) ∷ (0x80 + n % 64) ∷ []
    else if ltb n 0x10000
    then (0xe0 + n / 4096) ∷ (0x80 + (n / 64) % 64) ∷ (0x80 + n % 64) ∷ []
    else (0xf0 + n / 262144)
      ∷ (0x80 + (n / 4096) % 64)
      ∷ (0x80 + (n / 64) % 64)
      ∷ (0x80 + n % 64)
      ∷ []

-- The bytes of a literal.
abbrev pub utf8 : String → Text
utf8 String.[] = []
utf8 (String.◌∷◌ c s) = utf8_char (code c) ++ utf8 s

unfoldable pub text_eq : Text → Text → Bool
text_eq [] [] = true
text_eq [] (y ∷ ys) = false
text_eq (x ∷ xs) [] = false
text_eq (x ∷ xs) (y ∷ ys) = (x == y) && text_eq xs ys

unfoldable pub text_le : Text → Text → Bool
text_le [] ys = true
text_le (x ∷ xs) [] = false
text_le (x ∷ xs) (y ∷ ys) = ltb x y || ((x == y) && text_le xs ys)

pub text_eq_iff : (s t : Text) → (text_eq s t ≡ true) ↔ (s ≡ t)
unfolding text_eq
text_eq_iff [] [] = ((λ _. refl), λ _. refl)
text_eq_iff [] (y ∷ t) = ground arith
text_eq_iff (x ∷ s) [] = ground arith
text_eq_iff (x ∷ s) (y ∷ t) = ground (arith, text_eq_iff s t)

pub text_eq_refl : (s : Text) → text_eq s s ≡ true
text_eq_refl s = (text_eq_iff s s).1 refl

pub text_le-total : (s t : Text) → (text_le s t ≡ true) ⊎ (text_le t s ≡ true)
unfolding text_le
text_le-total [] t = inl refl
text_le-total (x ∷ s) [] = inr refl
text_le-total (x ∷ s) (y ∷ t) = ground (arith, text_le-total s t)
