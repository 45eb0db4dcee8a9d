-- ===== src/Pool/Identity.antt =====
-- internal/pool/model.go: the hardware identity of a device, its completion and its validation.
use droidpool.Prelude.{
  ℕ, ◌+◌, ◌-◌, ◌≤◌, ◌≡◌, refl, ◌↔◌, Bool, true, false, not, ◌&&◌, ◌||◌, [], ◌∷◌, Option, none, some,
  arith, ltb, leb, ◌==◌, if◌then◌else◌, is_empty, length, Text, text_eq, text_eq_iff,
}

pub record Identity : Type 0 where
  pub model : Text
  pub brand : Text
  pub manufacturer : Text
  pub device : Text
  pub name : Text
  pub serial : Text

unfoldable pub is_lower_or_digit : ℕ → Bool
is_lower_or_digit c = (leb b'a' c && leb c b'z') || (leb b'0' c && leb c b'9')

unfoldable pub is_upper : ℕ → Bool
is_upper c = leb b'A' c && leb c b'Z'

-- The runes outside ASCII are dropped, and so is each byte of theirs, which is 128 or more.
unfoldable pub slug : Text → Text
unfolding is_lower_or_digit is_upper
slug [] = []
slug (r ∷ s) =
    let rest = slug s in
    if is_lower_or_digit r then r ∷ rest else if is_upper r then (r + b'a' - b'A') ∷ rest else rest

abbrev pub or_else : Text → Text → Text
or_else s t = if is_empty s then t else s

unfoldable pub normalized : Identity → Identity
normalized id =
    let brand = or_else id.brand id.manufacturer in
    let manufacturer = or_else id.manufacturer brand in
    let device = or_else id.device (slug id.model) in
    record id {
      brand = brand;
      manufacturer = manufacturer;
      device = device;
      name = or_else id.name device;
    }

unfoldable pub is_alnum : ℕ → Bool
unfolding is_lower_or_digit is_upper
is_alnum c = is_lower_or_digit c || is_upper c

-- [A-Za-z0-9 ._+-]
unfoldable pub is_value_byte : ℕ → Bool
unfolding is_alnum
is_value_byte c = is_alnum c || c == b' ' || c == b'.' || c == b'_' || c == b'+' || c == b'-'

abbrev pub all_bytes : (ℕ → Bool) → Text → Bool
all_bytes p [] = true
all_bytes p (c ∷ s) = p c && all_bytes p s

-- ^[A-Za-z0-9][A-Za-z0-9 ._+-]*$
unfoldable pub identity_value : Text → Bool
unfolding is_alnum is_value_byte
identity_value [] = false
identity_value (c ∷ s) = is_alnum c && all_bytes is_value_byte s

-- ^[A-Za-z0-9]{1,32}$
unfoldable pub serial_value : Text → Bool
unfolding is_alnum
serial_value s = leb 1 (length s) && leb (length s) 32 && all_bytes is_alnum s

pub data IdentityError : Type 0 where
  no_model no_brand bad_value bad_serial : IdentityError

-- One field of the loop over the map: an empty value is skipped.
unfoldable pub is_bad_value : Text → Bool
unfolding identity_value
is_bad_value v = not (is_empty v) && (ltb 64 (length v) || not (identity_value v))

-- The map is walked in any order; whichever bad field is met, the error is of one kind.
unfoldable pub validate : Identity → Option IdentityError
unfolding is_bad_value serial_value
validate id =
    if is_empty id.model
    then some no_model
    else if is_empty id.brand && is_empty id.manufacturer
    then some no_brand
    else if is_bad_value id.model
        || is_bad_value id.brand
        || is_bad_value id.manufacturer
        || is_bad_value id.device
        || is_bad_value id.name
    then some bad_value
    else if not (is_empty id.serial) && not (serial_value id.serial)
    then some bad_serial
    else none

unfoldable pub is_zero_identity : Identity → Bool
is_zero_identity i =
    is_empty i.model
    && is_empty i.brand
    && is_empty i.manufacturer
    && is_empty i.device
    && is_empty i.name
    && is_empty i.serial

unfoldable pub identity_eq : Identity → Identity → Bool
identity_eq a b =
    text_eq a.model b.model
    && text_eq a.brand b.brand
    && text_eq a.manufacturer b.manufacturer
    && text_eq a.device b.device
    && text_eq a.name b.name
    && text_eq a.serial b.serial

-- `nil` is the same as `nil` only.
unfoldable pub same_identity : Option Identity → Option Identity → Bool
unfolding identity_eq
same_identity none none = true
same_identity none (some b) = false
same_identity (some a) none = false
same_identity (some a) (some b) = identity_eq a b

-- Two identities, or the absence of one, are found the same exactly if they are equal.
pub same_identity_iff : (a b : Option Identity) → (same_identity a b ≡ true) ↔ (a ≡ b)
unfolding same_identity
same_identity_iff none none = ground arith
same_identity_iff none (some b) = ground arith
same_identity_iff (some a) none = ground arith
same_identity_iff (some a) (some b) = ground (
  arith,
  text_eq_iff a.model b.model,
  text_eq_iff a.brand b.brand,
  text_eq_iff a.manufacturer b.manufacturer,
  text_eq_iff a.device b.device,
  text_eq_iff a.name b.name,
  text_eq_iff a.serial b.serial,
)

-- Completing an identity twice is completing it once.
pub normalized_idem : (id : Identity) → normalized (normalized id) ≡ normalized id
unfolding normalized
normalized_idem id = ground arith

slug-bytes : (s : Text) → all_bytes is_alnum (slug s) ≡ true
unfolding slug is_alnum
slug-bytes [] = refl
slug-bytes (r ∷ s) = ground (arith, slug-bytes s)

length-slug : (s : Text) → length (slug s) ≤ length s
unfolding slug
length-slug [] = omega arith
length-slug (r ∷ s) = ground (arith, length-slug s)

alnum_bytes-value : (s : Text) → all_bytes is_alnum s ≡ true → all_bytes is_value_byte s ≡ true
unfolding is_value_byte
alnum_bytes-value [] h = refl
alnum_bytes-value (c ∷ s) h = ground (arith, alnum_bytes-value s)

alnum_bytes-ok : (s : Text) → all_bytes is_alnum s ≡ true → length s ≤ 64 → is_bad_value s ≡ false
unfolding is_bad_value identity_value
alnum_bytes-ok [] h le = refl
alnum_bytes-ok (c ∷ s) h le = ground (arith, alnum_bytes-value s)

length_of_ok : (s : Text) → is_bad_value s ≡ false → length s ≤ 64
unfolding is_bad_value
length_of_ok [] h = omega arith
length_of_ok (c ∷ s) h = ground arith

slug-ok : (s : Text) → is_bad_value s ≡ false → is_bad_value (slug s) ≡ false
slug-ok s h =
    alnum_bytes-ok (slug s) (slug-bytes s) (omega (arith, length-slug s, length_of_ok s h))

-- An identity that passes validation still passes it after its missing fields are completed.
pub validate-normalized : (id : Identity) → validate id ≡ none → validate (normalized id) ≡ none
unfolding validate normalized
validate-normalized id h = ground (arith, slug-ok id.model)
