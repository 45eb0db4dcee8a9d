-- ===== src/Uiagent/Lines.antt =====
-- What `readLimitedLine` and `Dump` of internal/uiagent/uiagent.go return.
use droidpool.Prelude.{
  ℕ, ◌+◌, ◌≤◌, ◌<◌, ◌≡◌, refl, ap, ◌∙◌, inl, inr, Bool, true, false, List, [], ◌∷◌, ◌++◌, arith,
  Bool-cases, ltb, Text, length, length-append, if◌then◌else◌,
}
use droidpool.Exec.{ok, err, too_long}
use droidpool.Uiagent.{read_limited_line}

-- A line of chunks: each but the last says that more comes.
abbrev pub line_of : List Text → Text → List (Text × Bool)
line_of [] end = (end, false) ∷ []
line_of (c ∷ cs) end = (c, true) ∷ line_of cs end

abbrev pub joined : List Text → Text → Text
joined [] end = end
joined (c ∷ cs) end = c ++ joined cs end

append_assoc : (s t u : Text) → (s ++ t) ++ u ≡ s ++ (t ++ u)
append_assoc [] t u = refl
append_assoc (c ∷ s) t u = ap (λ r. c ∷ r) (append_assoc s t u)

read-fits :
    (limit : ℕ) (sb : Text) (cs : List Text) (end : Text) (rest : List (Text × Bool))
    → length (sb ++ joined cs end) ≤ limit
    → read_limited_line limit sb (line_of cs end ++ rest) ≡ ok (sb ++ joined cs end)
unfolding read_limited_line
read-fits limit sb [] end rest fits =
    let whole = length-append sb end in ground (arith, whole, fits)
read-fits limit sb (c ∷ cs) end rest fits =
    let same = append_assoc sb c (joined cs end) in
    let whole = length-append (sb ++ c) (joined cs end) in
    let part = length-append sb c in
    let short : length (sb ++ c ++ joined cs end) ≤ limit = rw same fits in
    let low : ltb limit (length sb + length c) ≡ false = ground (arith, whole, part, short) in
    rw low (read-fits limit (sb ++ c) cs end rest short ∙ ap (λ t. ok t) same)

read-long :
    (limit : ℕ) (sb : Text) (cs : List Text) (end : Text) (rest : List (Text × Bool))
    → limit < length (sb ++ joined cs end)
    → read_limited_line limit sb (line_of cs end ++ rest) ≡ err too_long
unfolding read_limited_line
read-long limit sb [] end rest long =
    let whole = length-append sb end in ground (arith, whole, long)
read-long limit sb (c ∷ cs) end rest long =
    let same = append_assoc sb c (joined cs end) in
    elim (Bool-cases (ltb limit (length sb + length c))) [
      | inl high ↦ rw high refl
      | inr low ↦ rw low (read-long limit (sb ++ c) cs end rest (rw same long))
    ]

-- Reading a line that arrives in chunks, with whatever follows it, gives the chunks joined if
-- together they are at most the limit long, and otherwise the error for a line that is too long.
pub read_limited_line-joined :
    (limit : ℕ) (cs : List Text) (end : Text) (rest : List (Text × Bool))
    → read_limited_line limit [] (line_of cs end ++ rest)
      ≡ (if ltb limit (length (joined cs end)) then err too_long else ok (joined cs end))
read_limited_line-joined limit cs end rest =
    elim (Bool-cases (ltb limit (length (joined cs end)))) [
      | inl long ↦ rw long (read-long limit [] cs end rest (ground (arith, long)))
      | inr fits ↦ rw fits (read-fits limit [] cs end rest (ground (arith, fits)))
    ]
