-- ===== src/Api/Urls.antt =====
-- internal/api/api.go: the addresses that operators give, their checks, and what is shown of them.
-- `net.SplitHostPort` is not in the repository: whether it accepts is an argument.
use droidpool.Prelude.{
  ℕ, Bool, not, ◌&&◌, ◌||◌, [], ◌∷◌, ◌++◌, Option, none, some, Text, codes, any, is_some, is_empty,
  ◌==◌, if◌then◌else◌,
}
use droidpool.Manager.Index.{strip_prefix}

abbrev first_before : ℕ → Option (Text × Text) → Option (Text × Text)
first_before c none = none
first_before c (some (a, b)) = some (c ∷ a, b)

abbrev here_or : Option Text → Option (Text × Text) → Option (Text × Text)
here_or (some rest) later = some ([], rest)
here_or none later = later

-- strings.Index with the slices around what it finds: the text in front of the first `sep` and the
-- text behind it. `sep` is not empty.
unfoldable pub cut : Text → Text → Option (Text × Text)
unfolding strip_prefix
cut sep [] = none
cut sep (c ∷ s) = let rest = cut sep s in here_or (strip_prefix sep (c ∷ s)) (first_before c rest)

abbrev user_of : Text → Option (Text × Text) → Text
user_of cred none = cred
user_of cred (some (user, password)) = user

abbrev mask_user : Text → Text → Option (Text × Text) → Text
mask_user u scheme none = u
mask_user u scheme (some (cred, host)) =
    scheme ++ (codes "://" ++ (user_of cred (cut (codes ":") cred) ++ (codes ":***@" ++ host)))

abbrev mask_rest : Text → Option (Text × Text) → Text
mask_rest u none = u
mask_rest u (some (scheme, rest)) = mask_user u scheme (cut (codes "@") rest)

unfoldable pub mask_url_credentials : Text → Text
unfolding cut
mask_url_credentials u = mask_rest u (cut (codes "://") u)

pub data UrlError : Type 0 where
  bad_scheme has_space bad_address : UrlError

abbrev pub has_prefix : Text → Text → Bool
has_prefix p s = is_some (strip_prefix p s)

unfoldable pub validate_rtsp : Text → Option UrlError
unfolding strip_prefix
validate_rtsp u =
    if is_empty u
    then none
    else if not (has_prefix (codes "rtsp://") u) && not (has_prefix (codes "rtsps://") u)
    then some bad_scheme
    else if any (λ c. c == 32 || c == 9 || c == 10) u
    then some has_space
    else none

abbrev pub trim_prefix : Text → Text → Text
trim_prefix p s = elim (strip_prefix p s) [ none ↦ s | some rest ↦ rest ]

-- What follows the last `@`, or all of it.
unfoldable pub after_last_at : Text → Text
after_last_at [] = []
after_last_at (c ∷ s) =
    let rest = after_last_at s in
    if any (λ d. d == b'@') s then rest else if c == b'@' then s else c ∷ s

unfoldable pub validate_proxy : (Text → Bool) → Text → Option UrlError
unfolding strip_prefix after_last_at
validate_proxy splits p =
    if is_empty p
    then none
    else if not (has_prefix (codes "socks5://") p) && not (has_prefix (codes "socks5h://") p)
    then some bad_scheme
    else if splits
        (after_last_at (trim_prefix (codes "socks5://") (trim_prefix (codes "socks5h://") p)))
    then none
    else some bad_address
