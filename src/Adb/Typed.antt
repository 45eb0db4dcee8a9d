-- ===== src/Adb/Typed.antt =====
-- What the shell of a device makes of the text that `Text` of internal/adb/adb.go types.
use droidpool.Prelude.{
  ℕ, ◌≡◌, refl, Bool, true, false, ◌||◌, [], ◌∷◌, ◌++◌, Option, none, some, arith, inl, inr,
  Bool-cases, ◌==◌, if◌then◌else◌, Text, codes,
}
use droidpool.Prelude.Strings.{Lacks}
use droidpool.Adb.{is_special, escape_text}

-- The bytes that end a word of a shell or start an expansion, a quotation or an operator in it.
unfoldable pub ends_word : ℕ → Bool
ends_word c = is_special c || c == b' ' || c == 9 || c == 10

abbrev put_first : ℕ → Option Text → Option Text
put_first c none = none
put_first c (some s) = some (c ∷ s)

-- The single plain word that a shell reads, where a backslash takes the next byte as it is.
unfoldable pub plain_word : Bool → Text → Option Text
plain_word false [] = some []
plain_word true [] = none
plain_word true (c ∷ s) = put_first c (plain_word false s)
plain_word false (c ∷ s) =
    let escaped = plain_word true s in
    let plain = plain_word false s in
    if c == b'\\' then escaped else if ends_word c then none else put_first c plain

-- The text with each space as `input text` wants it.
unfoldable pub with_spaces : Text → Text
with_spaces [] = []
with_spaces (c ∷ s) = let rest = with_spaces s in if c == b' ' then codes "%s" ++ rest else c ∷ rest

percent_s :
    (s w : Text)
    → plain_word false s ≡ some w
    → plain_word false (b'%' ∷ b's' ∷ s) ≡ some (b'%' ∷ b's' ∷ w)
unfolding plain_word ends_word is_special
percent_s s w h = rw h refl

-- A text without backslashes, tabs and newlines is escaped into what a shell reads as one plain
-- word, the text with %s for each space.
pub plain_word-escape_text :
    (s : Text)
    → Lacks b'\\' s
    → Lacks 9 s
    → Lacks 10 s
    → plain_word false (escape_text s) ≡ some (with_spaces s)
unfolding escape_text plain_word with_spaces ends_word
plain_word-escape_text [] h t n = refl
plain_word-escape_text (c ∷ s) h t n =
    let later = plain_word-escape_text s (ground arith) (ground arith) (ground arith) in
    elim (Bool-cases (c == b' ')) [
      | inl space ↦ rw space (percent_s (escape_text s) (with_spaces s) later)
      | inr other ↦ elim (Bool-cases (is_special c)) [
        | inl special ↦ rw (other, special, later) refl
        | inr plain ↦
            let is_plain : (c == b'\\') ≡ false = ground arith in
            let stays : (is_special c || c == b' ' || c == 9 || c == 10) ≡ false =
              rw (plain, other) (ground arith) in
            rw (other, plain, is_plain, stays, later) refl
      ]
    ]

special_is_no_space : (c : ℕ) → is_special c ≡ true → (c == b' ') ≡ false
unfolding is_special
special_is_no_space c h = ground arith

special_is_no_backslash : (c : ℕ) → is_special c ≡ true → (c == b'\\') ≡ false
unfolding is_special
special_is_no_backslash c h = ground arith

-- A text that starts with a backslash and one of the bytes that are escaped is escaped into what a
-- shell does not read as one plain word, whatever follows.
pub backslash-breaks_out :
    (c : ℕ) (rest : Text)
    → is_special c ≡ true
    → plain_word false (escape_text (b'\\' ∷ c ∷ rest)) ≡ none
unfolding escape_text plain_word ends_word is_special
backslash-breaks_out c rest h = rw (special_is_no_space c h, h, special_is_no_backslash c h, h) refl
