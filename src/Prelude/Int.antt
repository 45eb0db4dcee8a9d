-- ===== src/Prelude/Int.antt =====
-- Go's signed integers, and strconv.Atoi.
use Prim.Native.Nat.{ℕ, zero, suc, ◌+◌, ◌-◌, ◌^◌}
use mathlib.Core.Bool.{Bool, true, false}
use mathlib.Core.List.{[], ◌∷◌}
use droidpool.Prelude.Tests.{ltb, leb, ◌==◌, if◌then◌else◌}
use droidpool.Prelude.Lists.{is_empty}
use droidpool.Prelude.Bytes.{Text}
use droidpool.Prelude.Decimal.{scan}

-- `negsuc n` is -(n + 1).
pub data ℤ : Type 0 where
  pos negsuc : ℕ → ℤ

infixl 65 ◌+ℤ◌
-- `m - n` for natural numbers.
abbrev difference : ℕ → ℕ → ℤ
difference m n = if leb n m then pos (m - n) else negsuc (n - m - 1)

abbrev pub ◌+ℤ◌ : ℤ → ℤ → ℤ
pos m +ℤ pos n = pos (m + n)
pos m +ℤ negsuc n = difference m (suc n)
negsuc m +ℤ pos n = difference n (suc m)
negsuc m +ℤ negsuc n = negsuc (m + n + 1)

abbrev pub same_int : ℤ → ℤ → Bool
same_int (pos m) (pos n) = m == n
same_int (pos m) (negsuc n) = false
same_int (negsuc m) (pos n) = false
same_int (negsuc m) (negsuc n) = m == n

-- The number, or 0 in place of a negative one.
abbrev pub at_most : ℤ → ℕ
at_most (pos n) = n
at_most (negsuc n) = 0

abbrev pub is_negative : ℤ → Bool
is_negative (pos n) = false
is_negative (negsuc n) = true

-- The value, and whether the error is nil.
abbrev pub Atoi : Type 0
Atoi = ℤ × Bool

abbrev negated : ℕ → ℤ
negated zero = pos 0
negated (suc n) = negsuc n

abbrev in_range : Bool → ℕ → Atoi
in_range negative v =
    if negative
    then (if leb v (2 ^ 63) then (negated v, true) else (negated (2 ^ 63), false))
    else if ltb v (2 ^ 63)
    then (pos v, true)
    else (pos (2 ^ 63 - 1), false)

abbrev all_read : Bool → ℕ × Text → Atoi
all_read negative (v, rest) = if is_empty rest then in_range negative v else (pos 0, false)

abbrev digits_read : Bool → Text → Atoi
digits_read negative s = if is_empty s then (pos 0, false) else all_read negative (scan 0 s)

unfoldable pub atoi : Text → Atoi
unfolding scan
atoi [] = (pos 0, false)
atoi (c ∷ s) =
    if c == b'-'
    then digits_read true s
    else if c == b'+'
    then digits_read false s
    else digits_read false (c ∷ s)
