-- ===== src/Exec.antt =====
-- Go functions that may fail and change state: a state, a result, and the state that is kept when
-- the result is an error. The errors are those of internal/store, internal/pool and internal/node.
pub mod Keeps
pub mod Ends
use droidpool.Prelude.{
  ◌≡◌, refl, ◌⊎◌, inl, inr, Bool, true, false, Option, none, some, if◌then◌else◌,
}
use droidpool.Pool.Identity.{IdentityError}

pub data Error : Type 0 where
  not_found no_free_device bad_transition database driver_failed bad_device_id : Error
  timed_out cancelled no_camera no_gateway bad_location bad_archive bad_health : Error
  bad_options adb_failed request_failed too_long dump_failed : Error
  -- the fuel of a loop of this model ran out, or a read never returns
  diverged : Error
  bad_identity : IdentityError → Error

pub data Result {ℓ} (A : Type ℓ) : Type ℓ where
  ok : A → Result A
  err : Error → Result A

abbrev pub Exec : Type 0 → Type 0 → Type 0
Exec S A = S → Result A × S

abbrev pub pure : {S A : Type 0} → A → Exec S A
pure a s = (ok a, s)

abbrev pub raise : {S A : Type 0} → Error → Exec S A
raise e s = (err e, s)

-- `if err != nil { return err }`
abbrev pub after : {S A B : Type 0} → (A → Exec S B) → Result A × S → Result B × S
after f (ok a, s) = f a s
after f (err e, s) = (err e, s)

infixl 5 ◌>>=◌ ◌>>◌
abbrev pub ◌>>=◌ : {S A B : Type 0} → Exec S A → (A → Exec S B) → Exec S B
◌>>=◌ m f s = after f (m s)

abbrev pub ◌>>◌ : {S B : Type 0} → Exec S (Unit {0}) → Exec S B → Exec S B
◌>>◌ m k s = after (λ _. k) (m s)

-- The result is looked at and no error leaves the block.
abbrev pub attempt : {S A : Type 0} → Exec S A → Exec S (Result A)
attempt m s = let (r, s') = m s in (ok r, s')

-- `_ = call()`
abbrev pub ignore : {S A : Type 0} → Exec S A → Exec S (Unit {0})
ignore m s = let (r, s') = m s in (ok tt, s')

abbrev pub or_raise : {S A : Type 0} → Option A → Error → Exec S A
or_raise none e = raise e
or_raise (some a) e = pure a

abbrev pub is_ok {ℓ} : {A : Type ℓ} → Result A → Bool
is_ok (ok a) = true
is_ok (err e) = false

pub Result-cases {ℓ} :
    {A : Type ℓ} (r : Result A) → ((a : A) × (r ≡ ok a)) ⊎ ((e : Error) × (r ≡ err e))
Result-cases (ok a) = inl (a, refl)
Result-cases (err e) = inr (e, refl)

-- What holds of both branches holds of the test.
pub if-either {ℓ} :
    {S A : Type 0} (Q : Result A × S → Type ℓ) (b : Bool) (m k : Exec S A) (s : S)
    → (b ≡ true → Q (m s))
    → (b ≡ false → Q (k s))
    → Q ((if b then m else k) s)
if-either Q true m k s t f = t refl
if-either Q false m k s t f = f refl
