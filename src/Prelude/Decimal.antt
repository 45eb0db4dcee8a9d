-- ===== src/Prelude/Decimal.antt =====
-- Go's `%d` of a natural number, and the reading of digits that `fmt.Sscanf` does for `%d`.
use droidpool.Prelude.Tests.{Bool-cases, ltb, leb, if◌then◌else◌}
use droidpool.Prelude.Bytes.{Text}
use Prim.Native.Nat.{ℕ, zero, suc, ◌+◌, ◌-◌, ◌*◌, ◌/◌, ◌%◌, ◌<◌}
use mathlib.Core.Path.{◌≡◌, refl, ap}
use mathlib.Core.Logic.{inl, inr}
use mathlib.Core.Bool.{Bool, true, false, ◌&&◌}
use mathlib.Core.List.{[], ◌∷◌, ◌++◌}
use native.Mathlib.Omega.{arith}

unfoldable pub is_digit : ℕ → Bool
is_digit c = leb b'0' c && leb c b'9'

-- The digits of `n` in front of `rest`; the fuel is more than `n`, which has fewer digits.
digits : ℕ → ℕ → Text → Text
digits zero n rest = rest
digits (suc f) n rest =
    let more = digits f (n / 10) ((b'0' + n % 10) ∷ rest) in
    if ltb n 10 then (b'0' + n) ∷ rest else more

-- `%d`
unfoldable pub decimal : ℕ → Text
unfolding digits
decimal n = digits (suc n) n []

-- The value of the digits that the text starts with, and what follows them.
unfoldable pub scan : ℕ → Text → ℕ × Text
unfolding is_digit
scan acc [] = (acc, [])
scan acc (c ∷ s) =
    let more = scan (acc * 10 + (c - b'0')) s in if is_digit c then more else (acc, c ∷ s)

digits-append : (f n : ℕ) (s t : Text) → digits f n s ++ t ≡ digits f n (s ++ t)
unfolding digits
digits-append zero n s t = refl
digits-append (suc f) n s t = ground (arith, digits-append f (n / 10) ((b'0' + n % 10) ∷ s) t)

scan-digit :
    (acc d : ℕ) (rest : Text) → d < 10 → scan acc ((b'0' + d) ∷ rest) ≡ scan (acc * 10 + d) rest
unfolding scan
scan-digit acc d rest h =
    let e : acc * 10 + (b'0' + d - b'0') ≡ acc * 10 + d = omega arith in
    ground (arith, ap (λ (k : ℕ). scan k rest) e)

scan-digits : (f n : ℕ) (rest : Text) → n < f → scan 0 (digits f n rest) ≡ scan n rest
unfolding digits
scan-digits zero n rest h = absurd (omega arith)
scan-digits (suc f) n rest h =
    let q : n / 10 * 10 + n % 10 ≡ n = omega arith in
    let last = scan-digit (n / 10) (n % 10) rest (omega arith) in
    ground (
      arith,
      scan-digit 0 n rest,
      scan-digits f (n / 10) ((b'0' + n % 10) ∷ rest),
      last,
      ap (λ (k : ℕ). scan k rest) q,
    )

-- Reading back what `%d` wrote gives the number and the text behind it.
pub scan-decimal :
    (n c : ℕ) (rest : Text) → is_digit c ≡ false → scan 0 (decimal n ++ c ∷ rest) ≡ (n, c ∷ rest)
unfolding decimal scan
scan-decimal n c rest h =
    rw (digits-append (suc n) n [] (c ∷ rest), scan-digits (suc n) n (c ∷ rest) (omega arith))
      (ground arith)

pub scan-decimal_end : (n : ℕ) → scan 0 (decimal n) ≡ (n, [])
unfolding decimal scan
scan-decimal_end n = scan-digits (suc n) n [] (omega arith)

-- Two numbers printed in front of a byte that is no digit are told apart.
pub decimal_prefix_free :
    (m n c : ℕ) (s t : Text)
    → is_digit c ≡ false
    → decimal m ++ c ∷ s ≡ decimal n ++ c ∷ t
    → (m ≡ n) × (s ≡ t)
decimal_prefix_free m n c s t h e =
    let p = scan-decimal m c s h in
    let q = scan-decimal n c t h in ground (arith, p, q, ap (scan 0) e)

digits-head :
    (f n : ℕ) (rest : Text)
    → n < f
    → (c : ℕ) × (s : Text) × (digits f n rest ≡ c ∷ s) × (is_digit c ≡ true)
unfolding digits is_digit
digits-head zero n rest h = absurd (omega arith)
digits-head (suc f) n rest h = elim (Bool-cases (ltb n 10)) [
  | inl small ↦ (b'0' + n, rest, ground (arith, small), ground (arith, small))
  | inr big ↦
      let (c, s, e, d) = digits-head f (n / 10) ((b'0' + n % 10) ∷ rest) (ground (arith, big)) in
      (c, s, rw big e, d)
]

-- What `%d` writes starts with a digit.
pub decimal-head : (n : ℕ) → (c : ℕ) × (s : Text) × (decimal n ≡ c ∷ s) × (is_digit c ≡ true)
unfolding decimal
decimal-head n = digits-head (suc n) n [] (omega arith)

abbrev pub all_digits : Text → Bool
all_digits [] = true
all_digits (c ∷ s) = is_digit c && all_digits s

digits-digits :
    (f n : ℕ) (rest : Text) → all_digits rest ≡ true → all_digits (digits f n rest) ≡ true
unfolding digits is_digit
digits-digits zero n rest h = h
digits-digits (suc f) n rest h = ground (arith, digits-digits f (n / 10) ((b'0' + n % 10) ∷ rest))

-- What `%d` writes is digits throughout.
pub decimal-digits : (n : ℕ) → all_digits (decimal n) ≡ true
unfolding decimal
decimal-digits n = digits-digits (suc n) n [] refl
