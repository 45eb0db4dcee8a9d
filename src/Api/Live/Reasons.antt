-- ===== src/Api/Live/Reasons.antt =====
-- How long the reasons of internal/api/ws.go are.
use droidpool.Prelude.{
  ℕ, zero, suc, ◌+◌, ◌-◌, ◌≤◌, ◌≡◌, inl, inr, true, [], ◌∷◌, ◌++◌, Text, length, take, arith, leb,
  if◌then◌else◌, ◌==◌, Bool-cases, length-append,
}
use droidpool.Api.Live.{to_valid, rune_length, close_reason, ws_close_reason_max}

length-take : (n : ℕ) (s : Text) → length (take n s) ≤ n
length-take zero s = omega arith
length-take (suc n) [] = omega arith
length-take (suc n) (c ∷ s) = omega (arith, length-take n s)

length-to_valid : (kept : ℕ) (s : Text) → length (to_valid kept s) ≤ length s
unfolding to_valid
length-to_valid kept [] = omega arith
length-to_valid kept (c ∷ s) =
    let n = if kept == 0 then rune_length (c ∷ s) else kept in
    let shorter = length-to_valid (n - 1) s in
    elim (Bool-cases (n == 0)) [
      | inl none_left ↦ ground (arith, none_left, shorter)
      | inr kept_one ↦ ground (arith, kept_one, shorter)
    ]

le-leb : (m n : ℕ) → leb m n ≡ true → m ≤ n
le-leb m n h = ground (arith, h)

length-cut : (n : ℕ) (s t : Text) → length (to_valid 0 (take n s) ++ t) ≤ n + length t
length-cut n s t =
    let both = length-append (to_valid 0 (take n s)) t in
    let taken = length-take n s in
    let kept = length-to_valid 0 (take n s) in omega (arith, both, taken, kept)

-- The reason of a close frame has at most the 123 bytes that the protocol allows.
pub length-close_reason : (s : Text) → length (close_reason s) ≤ ws_close_reason_max
unfolding close_reason
length-close_reason s = elim (Bool-cases (leb (length s) 123)) [
  | inl short ↦ rw short (le-leb (length s) 123 short)
  | inr long ↦ rw long (length-cut 120 s (0xe2 ∷ 0x80 ∷ 0xa6 ∷ []))
]
