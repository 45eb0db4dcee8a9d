-- ===== src/Pool/Location.antt =====
-- internal/pool/model.go: reading and writing a mock location. strconv's floats are a parameter.
use droidpool.Prelude.{
  ℕ, Bool, ◌||◌, List, [], ◌∷◌, ◌++◌, Option, none, some, if◌then◌else◌, is_empty, Text,
}
use droidpool.Prelude.Strings.{split, split_by, trim_space}

-- ParseFloat gives `none` for an error. `lt_neg n f` is f < -n and `gt n f` is f > n; both are
-- false of a NaN.
pub record Floats : Type 1 where
  pub Float : Type 0
  pub zero_float : Float
  pub parse_float : Text → Option Float
  pub format_float : Float → Text
  pub lt_neg : ℕ → Float → Bool
  pub gt : ℕ → Float → Bool

module _ (fl : Floats) where
  open fl use {Float, zero_float, parse_float, format_float, lt_neg, gt}

  abbrev outside : ℕ → Float → Bool
  outside n f = lt_neg n f || gt n f

  abbrev within : Option Float → Option Float → Option (Float × Float)
  within (some lat) (some lng) = if outside 90 lat || outside 180 lng then none else some (lat, lng)
  within (some lat) none = none
  within none lng = none

  abbrev pub parse_parts : List Text → Option (Float × Float)
  parse_parts [] = none
  parse_parts (lat ∷ []) = none
  parse_parts (lat ∷ lng ∷ []) =
      within (parse_float (trim_space lat)) (parse_float (trim_space lng))
  parse_parts (lat ∷ lng ∷ x ∷ xs) = none

  -- `none` is the error.
  unfoldable pub parse_location : Text → Option (Float × Float)
  unfolding split_by trim_space
  parse_location s =
      if is_empty s then some (zero_float, zero_float) else parse_parts (split b',' s)

  unfoldable pub format_location : Float × Float → Text
  format_location (lat, lng) = format_float lat ++ b',' ∷ format_float lng
