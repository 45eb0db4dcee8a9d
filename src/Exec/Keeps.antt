-- ===== src/Exec/Keeps.antt =====
-- Invariants of actions: one rule for each way in which an action is put together.
use droidpool.Prelude.{Bool, true, false, Option, none, some, if◌then◌else◌}
use droidpool.Exec.{
  Error, Result, ok, err, Exec, pure, raise, or_raise, after, attempt, ignore, ◌>>=◌, ◌>>◌,
}

-- `P` holds after `m`, whether it returns or fails, if it held before.
pub record Keeps {S A : Type 0} (P : S → Type 0) (m : Exec S A) : Type 0 where
  pub at : (s : S) → P s → P (m s).1

module _ {S A : Type 0} {P : S → Type 0} where
  pub Keeps-pure : (a : A) → Keeps P (pure a)
  Keeps-pure a = record { at = λ s p. p }

  pub Keeps-raise : (e : Error) → Keeps P (raise {A = A} e)
  Keeps-raise e = record { at = λ s p. p }

  pub Keeps-or_raise : (o : Option A) (e : Error) → Keeps P (or_raise o e)
  Keeps-or_raise none e = Keeps-raise e
  Keeps-or_raise (some a) e = Keeps-pure a

  pub Keeps-ignore : (m : Exec S A) → Keeps P m → Keeps P (ignore m)
  Keeps-ignore m k = record { at = k.at }

  pub Keeps-attempt : (m : Exec S A) → Keeps P m → Keeps P (attempt m)
  Keeps-attempt m k = record { at = k.at }

  pub Keeps-if : (b : Bool) (m n : Exec S A) → Keeps P m → Keeps P n → Keeps P (if b then m else n)
  Keeps-if true m n km kn = km
  Keeps-if false m n km kn = kn

module _ {S A B : Type 0} {P : S → Type 0} where
  after-holds :
      (f : A → Exec S B) → ((a : A) → Keeps P (f a)) → (x : Result A × S) → P x.1 → P (after f x).1
  after-holds f kf (ok a, s) p = (kf a).at s p
  after-holds f kf (err e, s) p = p

  pub Keeps-bind :
      (m : Exec S A) (f : A → Exec S B) → Keeps P m → ((a : A) → Keeps P (f a)) → Keeps P (m >>= f)
  Keeps-bind m f km kf = record { at = λ s p. after-holds f kf (m s) (km.at s p) }

pub Keeps-then :
    {S B : Type 0} {P : S → Type 0} (m : Exec S (Unit {0})) (n : Exec S B)
    → Keeps P m
    → Keeps P n
    → Keeps P (m >> n)
Keeps-then m n km kn = Keeps-bind m (λ _. n) km (λ _. kn)

pub ruleset keeps_rules = (
  Keeps-pure, Keeps-raise, Keeps-or_raise, Keeps-ignore, Keeps-attempt, Keeps-if, Keeps-bind,
  Keeps-then,
)
