-- ===== src/Store/Rows.antt =====
-- Lemmas on rows: tests and searches after an update, and sorting.
use mathlib.Core.List.{Perm}
use mathlib.Core.List.Perm
use droidpool.Prelude.{
  ◌≡◌, refl, ap, subst, if◌then◌else◌, ◌⊎◌, inl, inr, Bool, true, false, ◌||◌, ◌&&◌, List, [], ◌∷◌,
  none, some, arith, any, find?, All, Bool-cases,
}
use droidpool.Store.Tables.{update_where, insert_by, order_by}

module _ {ℓ} {A : Type ℓ} where
  -- An update that keeps what a test reads keeps the test's answer over the table.
  pub any-update :
      (q p : A → Bool) (f : A → A) (rows : List A)
      → ((r : A) → q (f r) ≡ q r)
      → any q (update_where p f rows) ≡ any q rows
  unfolding update_where
  any-update q p f [] h = refl
  any-update q p f (r ∷ rows) h = ground (arith, h r, any-update q p f rows h)

  -- An update that keeps what a search reads is seen by the search.
  pub find-update :
      (q p : A → Bool) (f : A → A) (rows : List A) (r : A)
      → ((x : A) → q (f x) ≡ q x)
      → find? q rows ≡ some r
      → find? q (update_where p f rows) ≡ some (if p r then f r else r)
  unfolding update_where
  find-update q p f [] r keep h = ground arith
  find-update q p f (x ∷ rows) r keep h = elim (Bool-cases (q x)) [
    | inl hit ↦
        let same : x ≡ r = ground (arith, hit) in
        subst (λ z. find? q (update_where p f (x ∷ rows)) ≡ some (if p z then f z else z)) same
          (ground (arith, hit, keep x))
    | inr miss ↦ ground (arith, miss, keep x, find-update q p f rows r keep)
  ]

  pub find-none : (q : A → Bool) (rows : List A) → find? q rows ≡ none → any q rows ≡ false
  find-none q [] h = refl
  find-none q (r ∷ rows) h = ground (arith, find-none q rows)

  pub find-some :
      (q : A → Bool) (rows : List A) (r : A)
      → find? q rows ≡ some r
      → (q r ≡ true) × (any q rows ≡ true)
  find-some q [] r h = ground arith
  find-some q (x ∷ rows) r h = ground (arith, find-some q rows r)

  pub find-any :
      (q p : A → Bool) (rows : List A) (r : A)
      → find? q rows ≡ some r
      → p r ≡ true
      → any p rows ≡ true
  find-any q p [] r h e = ground arith
  find-any q p (x ∷ rows) r h e = elim (Bool-cases (q x)) [
    | inl hit ↦ let same : x ≡ r = ground (arith, hit) in ground (arith, ap p same)
    | inr miss ↦ ground (arith, find-any q p rows r)
  ]

  pub any-insert :
      (q : A → Bool) (le : A → A → Bool) (r : A) (rows : List A)
      → any q (insert_by le r rows) ≡ (q r || any q rows)
  unfolding insert_by
  any-insert q le r [] = refl
  any-insert q le r (x ∷ rows) = ground (arith, any-insert q le r rows)

  -- Sorting keeps the rows.
  pub any-order :
      (q : A → Bool) (le : A → A → Bool) (rows : List A) → any q (order_by le rows) ≡ any q rows
  unfolding order_by
  any-order q le [] = refl
  any-order q le (r ∷ rows) =
      ground (arith, any-insert q le r (order_by le rows), any-order q le rows)

  insert-perm : (le : A → A → Bool) (r : A) (rows : List A) → Perm (r ∷ rows) (insert_by le r rows)
  unfolding insert_by
  insert-perm le r [] = Perm.refl _
  insert-perm le r (x ∷ rows) = elim (Bool-cases (le r x)) [
    | inl first ↦ rw (first, insert_by) (Perm.refl _)
    | inr after ↦
        rw (after, insert_by)
          (Perm.trans (Perm.swap x r rows) (Perm.cons x (insert-perm le r rows)))
  ]

  pub order-perm : (le : A → A → Bool) (rows : List A) → Perm rows (order_by le rows)
  unfolding order_by
  order-perm le [] = Perm.refl _
  order-perm le (r ∷ rows) = Perm.trans (Perm.cons r (order-perm le rows)) (insert-perm le r _)

  -- Each row is at most the next one.
  abbrev pub IsOrdered : (A → A → Bool) → List A → Type 0
  IsOrdered le [] = Unit
  IsOrdered le (x ∷ []) = Unit
  IsOrdered le (x ∷ y ∷ rows) = (le x y ≡ true) × IsOrdered le (y ∷ rows)

  module _ (le : A → A → Bool) (total : (x y : A) → (le x y ≡ true) ⊎ (le y x ≡ true)) where
    insert-IsOrdered :
        (r : A) (rows : List A) → IsOrdered le rows → IsOrdered le (insert_by le r rows)
    unfolding insert_by
    insert-IsOrdered r [] h = tt
    insert-IsOrdered r (x ∷ []) h = ground (arith, total r x)
    insert-IsOrdered r (x ∷ y ∷ rows) h =
        ground (arith, total r x, insert-IsOrdered r (y ∷ rows) h.1)

    pub order-IsOrdered : (rows : List A) → IsOrdered le (order_by le rows)
    unfolding order_by
    order-IsOrdered [] = tt
    order-IsOrdered (r ∷ rows) = insert-IsOrdered r (order_by le rows) (order-IsOrdered rows)

-- No two rows clash.
abbrev pub Unique {ℓ} : {A : Type ℓ} → (A → A → Bool) → List A → Type 0
Unique clash [] = Unit
Unique clash (x ∷ rows) = (any (clash x) rows ≡ false) × Unique clash rows

module _ {ℓ} {A : Type ℓ} where
  pub any-and :
      (b : Bool) (q : A → Bool) (rows : List A)
      → any q rows ≡ false
      → any (λ y. b && q y) rows ≡ false
  any-and b q [] e = refl
  any-and b q (y ∷ rows) e = ground (arith, any-and b q rows)

  any_mono :
      (q q' p : A → Bool) (f : A → A) (rows : List A)
      → ((y : A) → q y ≡ false → q' y ≡ false)
      → ((y : A) → q y ≡ false → q' (f y) ≡ false)
      → any q rows ≡ false
      → any q' (update_where p f rows) ≡ false
  unfolding update_where
  any_mono q q' p f [] k h e = refl
  any_mono q q' p f (r ∷ rows) k h e = ground (arith, k r, h r, any_mono q q' p f rows k h)

  -- An update after which rows clash only if they did before makes no clash.
  pub update-Unique :
      (clash : A → A → Bool) (p : A → Bool) (f : A → A) (rows : List A)
      → ((x y : A) → clash x y ≡ false → clash (f x) y ≡ false)
      → ((x y : A) → clash x y ≡ false → clash x (f y) ≡ false)
      → Unique clash rows
      → Unique clash (update_where p f rows)
  unfolding update_where
  update-Unique clash p f [] l r u = tt
  update-Unique clash p f (x ∷ rows) l r u =
      let same = any_mono (clash x) (clash x) p f rows (λ y e. e) (r x) u.0 in
      let moved =
        any_mono (clash x) (clash (f x)) p f rows (l x) (λ y e. l x (f y) (r x y e)) u.0 in
      let rest = update-Unique clash p f rows l r u.1 in ground (arith, same, moved, rest)

  -- A predicate that the update keeps holds of every row afterwards.
  pub update-All {κ} :
      (P : A → Type κ) (p : A → Bool) (f : A → A) (rows : List A)
      → ((x : A) → P x → P (f x))
      → All P rows
      → All P (update_where p f rows)
  unfolding update_where
  update-All P p f [] h a = tt
  update-All P p f (x ∷ rows) h a = elim (Bool-cases (p x)) [
    | inl hit ↦ rw (hit, update_where) (h x a.0, update-All P p f rows h a.1)
    | inr miss ↦ rw (miss, update_where) (a.0, update-All P p f rows h a.1)
  ]

  pub All-map {κ μ} :
      (P : A → Type κ) (Q : A → Type μ) (rows : List A)
      → ((x : A) → P x → Q x)
      → All P rows
      → All Q rows
  All-map P Q [] h a = tt
  All-map P Q (x ∷ rows) h a = (h x a.0, All-map P Q rows h a.1)
