-- ===== src/Client/Flags.antt =====
-- Go's package flag, as cmd/droidpool/main.go uses it: a set of text and Boolean flags.
use droidpool.Prelude.{
  Bool, ◌||◌, List, [], ◌∷◌, Option, none, some, if◌then◌else◌, ◌==◌, any, Text, codes, text_eq,
}
use droidpool.Manager.Index.{strip_prefix}
use droidpool.Api.Urls.{cut}

pub data Kind : Type 0 where
  text_flag bool_flag : Kind

-- What one argument is: not a flag, the end of the flags, not well formed or unknown, a request for
-- help, a flag with its value, or a flag whose value comes next.
pub data Arg : Type 0 where
  plain terminator bad_flag asks_help : Arg
  sets : Text → Text → Arg
  needs_value : Text → Arg

abbrev is_bool : Text → Bool
is_bool v =
    any (λ w. text_eq v w)
      (codes "1"
        ∷ codes "t"
        ∷ codes "T"
        ∷ codes "TRUE"
        ∷ codes "true"
        ∷ codes "True"
        ∷ codes "0"
        ∷ codes "f"
        ∷ codes "F"
        ∷ codes "FALSE"
        ∷ codes "false"
        ∷ codes "False"
        ∷ [])

unfoldable pub kind_of : Text → List (Text × Kind) → Option Kind
unfolding text_eq
kind_of name [] = none
kind_of name ((n, k) ∷ ks) = let rest = kind_of name ks in if text_eq name n then some k else rest

abbrev pub known : Text → Option Text → Option Kind → Arg
known name v none =
    if text_eq name (codes "help") || text_eq name (codes "h") then asks_help else bad_flag
known name none (some bool_flag) = sets name (codes "true")
known name (some v) (some bool_flag) = if is_bool v then sets name v else bad_flag
known name none (some text_flag) = needs_value name
known name (some v) (some text_flag) = sets name v

abbrev pub with_value : List (Text × Kind) → Text → Option (Text × Text) → Arg
with_value ks s none = known s none (kind_of s ks)
with_value ks s (some (name, v)) = known name (some v) (kind_of name ks)

-- The name, without its dashes, and the value behind a =.
abbrev pub named : List (Text × Kind) → Text → Arg
named ks [] = terminator
named ks (c ∷ s) =
    if c == b'-' || c == b'=' then bad_flag else with_value ks (c ∷ s) (cut (codes "=") (c ∷ s))

abbrev pub after_dash : List (Text × Kind) → Text → Arg
after_dash ks [] = plain
after_dash ks (c ∷ s) = if c == b'-' then named ks s else named ks (c ∷ s)

unfoldable pub classify : List (Text × Kind) → Text → Arg
unfolding kind_of cut strip_prefix text_eq
classify ks [] = plain
classify ks (c ∷ s) = if c == b'-' then after_dash ks s else plain

pub data Parsed : Type 0 where
  bad_usage usage : Parsed
  flags : List (Text × Text) → List Text → Parsed

abbrev set_flag : Text → Text → Parsed → Parsed
set_flag name v (flags fs args) = flags ((name, v) ∷ fs) args
set_flag name v p = p

abbrev pub awaited : Arg → Option Text
awaited (needs_value name) = some name
awaited a = none

abbrev pub combine : Arg → Text → List Text → Parsed → Parsed
combine plain a args p = flags [] (a ∷ args)
combine terminator a args p = flags [] args
combine bad_flag a args p = bad_usage
combine asks_help a args p = usage
combine (sets name v) a args p = set_flag name v p
combine (needs_value name) a args p = p

-- (*FlagSet).Parse; the option is the flag that waits for its value.
unfoldable pub parse : List (Text × Kind) → Option Text → List Text → Parsed
unfolding classify
parse ks none [] = flags [] []
parse ks (some name) [] = bad_usage
parse ks (some name) (v ∷ args) = set_flag name v (parse ks none args)
parse ks none (a ∷ args) = let c = classify ks a in combine c a args (parse ks (awaited c) args)

-- The last value that was set, or the default.
unfoldable pub value : Text → Text → List (Text × Text) → Text
unfolding text_eq
value name def [] = def
value name def ((n, v) ∷ fs) = value name (if text_eq n name then v else def) fs

unfoldable pub truth : Text → List (Text × Text) → Bool
unfolding value
truth name fs =
    any (λ w. text_eq (value name (codes "false") fs) w)
      (codes "1" ∷ codes "t" ∷ codes "T" ∷ codes "TRUE" ∷ codes "true" ∷ codes "True" ∷ [])
