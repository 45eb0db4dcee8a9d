-- ===== src/Certfile/Served.antt =====
-- Which certificates internal/certfile/certfile.go serves.
use droidpool.Prelude.{
  ℕ, ◌+◌, ◌≤◌, ◌≡◌, refl, sym, ap, ◌∙◌, ◌⊎◌, inl, inr, false, List, [], ◌∷◌, Option, none, some,
  ltb, ◌==◌, arith, Bool-cases,
}
use droidpool.Certfile.{Loader, Files, check_every, take_pair, if_changed, current, handshakes}

module _ {C : Type 0} where
  -- The pair was loaded in one of the handshakes.
  abbrev LoadedIn : C × ℕ → List (ℕ × ℕ × Files C) → Type 0
  LoadedIn p [] = ⊥
  LoadedIn p ((now, later, f) ∷ hs) = (f.pair ≡ some p) ⊎ LoadedIn p hs

  abbrev Serves : Loader C → C × ℕ → Type 0
  Serves l p = (l.cert, l.mtime) ≡ p

  take_pair-Serves :
      (p : Option (C × ℕ)) (l : Loader C)
      → Serves (take_pair p l) (l.cert, l.mtime)
        ⊎ (p ≡ some ((take_pair p l).cert, (take_pair p l).mtime))
  take_pair-Serves none l = inl refl
  take_pair-Serves (some (c, m)) l = inr refl

  if_changed-Serves :
      (t : Option ℕ) (p : Option (C × ℕ)) (l : Loader C)
      → Serves (if_changed t p l) (l.cert, l.mtime)
        ⊎ (p ≡ some ((if_changed t p l).cert, (if_changed t p l).mtime))
  if_changed-Serves none p l = inl refl
  if_changed-Serves (some t) p l = elim (Bool-cases (t == l.mtime)) [
    | inl same ↦ rw same (inl refl)
    | inr other ↦ rw other (take_pair-Serves p l)
  ]

  current-Serves :
      (now later : ℕ) (f : Files C) (l : Loader C)
      → Serves (current now later f l) (l.cert, l.mtime)
        ⊎ (f.pair ≡ some ((current now later f l).cert, (current now later f l).mtime))
  unfolding current
  current-Serves now later f l = elim (Bool-cases (ltb now (l.checked_at + check_every l.every))) [
    | inl soon ↦ rw soon (inl refl)
    | inr due ↦ rw due (if_changed-Serves f.changed f.pair (record l { checked_at = later }))
  ]

  -- The certificate served after any handshakes was loaded as a pair in one of them, and else is the
  -- one served before.
  handshakes-Serves :
      (hs : List (ℕ × ℕ × Files C)) (l : Loader C)
      → let l' = handshakes hs l in Serves l' (l.cert, l.mtime) ⊎ LoadedIn (l'.cert, l'.mtime) hs
  unfolding handshakes
  handshakes-Serves [] l = inl refl
  handshakes-Serves ((now, later, f) ∷ hs) l =
      let l1 = current now later f l in
      elim (handshakes-Serves hs l1) [
        | inl same ↦ elim (current-Serves now later f l) [
          | inl kept ↦ inl (same ∙ kept)
          | inr loaded ↦ inr (inl (loaded ∙ ap (λ p. some p) (sym same)))
        ]
        | inr later_on ↦ inr (inr later_on)
      ]

  -- A check that is due, of a file that has changed and can be loaded, gives what was loaded.
  current-renews :
      (now later t m : ℕ) (c : C) (f : Files C) (l : Loader C)
      → l.checked_at + check_every l.every ≤ now
      → f.changed ≡ some t
      → (t == l.mtime) ≡ false
      → f.pair ≡ some (c, m)
      → Serves (current now later f l) (c, m)
  unfolding current
  current-renews now later t m c f l due changed other loaded =
      let is_due : ltb now (l.checked_at + check_every l.every) ≡ false = ground (arith, due) in
      rw (is_due, changed, loaded) (rw other refl)
