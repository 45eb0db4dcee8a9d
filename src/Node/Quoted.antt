-- ===== src/Node/Quoted.antt =====
-- What a shell reads of `shellQuote` of internal/node/node.go.
use droidpool.Prelude.{
  ℕ, ◌≡◌, refl, ap, [], ◌∷◌, ◌++◌, Option, none, some, arith, if◌then◌else◌, ◌==◌, Text, inl, inr,
  Bool-cases,
}
use droidpool.Node.Names.{escape_quotes, shell_quote}

-- Where a shell stands in a word that is made of quoted parts and escaped bytes.
pub data Mode : Type 0 where
  bare quoted escaping : Mode

abbrev put_first : ℕ → Option Text → Option Text
put_first c none = none
put_first c (some s) = some (c ∷ s)

-- The word that a shell reads by the rules for single quotes and backslashes, if it is one.
unfoldable pub shell_word : Mode → Text → Option Text
shell_word bare [] = some []
shell_word quoted [] = none
shell_word escaping [] = none
shell_word bare (c ∷ s) =
    let opened = shell_word quoted s in
    let escaped = shell_word escaping s in
    if c == b'\'' then opened else if c == b'\\' then escaped else none
shell_word quoted (c ∷ s) =
    let closed = shell_word bare s in
    let inside = shell_word quoted s in if c == b'\'' then closed else put_first c inside
shell_word escaping (c ∷ s) = put_first c (shell_word bare s)

quoted-escape_quotes : (s : Text) → shell_word quoted (escape_quotes s ++ b'\'' ∷ []) ≡ some s
unfolding shell_word escape_quotes
quoted-escape_quotes [] = refl
quoted-escape_quotes (c ∷ s) = elim (Bool-cases (c == b'\'')) [
  | inl quote ↦
      let is_quote : b'\'' ≡ c = ground (arith, quote) in
      rw (quote, quoted-escape_quotes s) (ap (λ (d : ℕ). some (d ∷ s)) is_quote)
  | inr other ↦ rw (other, other, quoted-escape_quotes s) refl
]

-- A shell reads the quoted form of any text, by the rules for single quotes and backslashes, as
-- one word: the text.
pub shell_word-shell_quote : (s : Text) → shell_word bare (shell_quote s) ≡ some s
unfolding shell_word shell_quote
shell_word-shell_quote s = quoted-escape_quotes s
