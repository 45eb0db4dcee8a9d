-- ===== src/Exec/Ends.antt =====
-- What the last step of an action leaves behind when the action succeeds.
use droidpool.Prelude.{◌≡◌, refl, true}
use droidpool.Exec.{Result, ok, err, Exec, is_ok, after, ◌>>=◌, ◌>>◌}

-- The states that `m` leaves behind when it succeeds satisfy `Q`.
pub record Ends {S A : Type 0} (Q : S → Type 0) (m : Exec S A) : Type 0 where
  pub at : (s : S) → is_ok (m s).0 ≡ true → Q (m s).1

module _ {S A B : Type 0} (Q : S → Type 0) where
  Ends-after :
      (f : A → Exec S B) (x : Result A × S)
      → ((a : A) (t : S) → x ≡ (ok a, t) → Ends Q (f a))
      → is_ok (after f x).0 ≡ true
      → Q (after f x).1
  Ends-after f (ok a, t) later e = (later a t refl).at t e
  Ends-after f (err x, t) later e = cc

  pub Ends-bind :
      (m : Exec S A) (f : A → Exec S B)
      → ((s : S) (a : A) (t : S) → m s ≡ (ok a, t) → Ends Q (f a))
      → Ends Q (m >>= f)
  Ends-bind m f later = record { at = λ s e. Ends-after f (m s) (later s) e }

pub Ends-then :
    {S B : Type 0} (Q : S → Type 0) (m : Exec S (Unit {0})) (k : Exec S B)
    → Ends Q k
    → Ends Q (m >> k)
Ends-then Q m k later = Ends-bind Q m (λ _. k) (λ s a t e. later)
