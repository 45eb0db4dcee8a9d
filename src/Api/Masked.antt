-- ===== src/Api/Masked.antt =====
-- What `maskURLCredentials` and `validateProxy` of internal/api/api.go show and accept.
use droidpool.Prelude.{
  ℕ, ◌≡◌, refl, Bool, true, false, [], ◌∷◌, ◌++◌, some, Text, codes, any, ◌==◌, arith,
}
use droidpool.Prelude.Strings.{Lacks}
use droidpool.Manager.Index.{strip_prefix}
use droidpool.Api.Urls.{cut, mask_url_credentials, after_last_at, validate_proxy}

pub cut-byte : (b : ℕ) (s rest : Text) → Lacks b s → cut (b ∷ []) (s ++ b ∷ rest) ≡ some (s, rest)
unfolding cut strip_prefix
cut-byte b [] rest h = ground arith
cut-byte b (c ∷ s) rest h = ground (arith, cut-byte b s rest)

cut-scheme :
    (s rest : Text) → Lacks b':' s → cut (codes "://") (s ++ (codes "://" ++ rest)) ≡ some (s, rest)
unfolding cut strip_prefix
cut-scheme [] rest h = ground arith
cut-scheme (c ∷ s) rest h = ground (arith, cut-scheme s rest)

pub Lacks-append :
    (b : ℕ) (s t : Text) → Lacks b s → Lacks b t → (b':' == b) ≡ false → Lacks b (s ++ b':' ∷ t)
Lacks-append b [] t hs ht hb = ground arith
Lacks-append b (c ∷ s) t hs ht hb = ground (arith, Lacks-append b s t)

-- Of an address with a user and a password, everything up to the user and everything behind the
-- first @ is shown and nothing in between, where the scheme has no colon, the user neither colon
-- nor @, and the password part no @.
pub mask-hides :
    (scheme user password host : Text)
    → Lacks b':' scheme
    → Lacks b':' user
    → Lacks b'@' user
    → Lacks b'@' password
    → mask_url_credentials (scheme ++ (codes "://" ++ ((user ++ b':' ∷ password) ++ b'@' ∷ host)))
      ≡ scheme ++ (codes "://" ++ (user ++ (codes ":***@" ++ host)))
unfolding mask_url_credentials
mask-hides scheme user password host hs hu ha hp =
    let whole = cut-scheme scheme ((user ++ b':' ∷ password) ++ b'@' ∷ host) hs in
    let front =
      cut-byte b'@' (user ++ b':' ∷ password) host (Lacks-append b'@' user password ha hp refl) in
    let name = cut-byte b':' user password hu in ground (arith, whole, front, name)

has_at : (s rest : Text) → any (λ d. d == b'@') (s ++ b'@' ∷ rest) ≡ true
has_at [] rest = refl
has_at (c ∷ s) rest = ground (arith, has_at s rest)

pub after_last_at-Lacks : (s : Text) → Lacks b'@' s → after_last_at s ≡ s
unfolding after_last_at
after_last_at-Lacks [] h = refl
after_last_at-Lacks (c ∷ s) h = ground arith

pub after_last_at-found :
    (s rest : Text) → Lacks b'@' rest → after_last_at (s ++ b'@' ∷ rest) ≡ rest
unfolding after_last_at
after_last_at-found [] rest h = ground arith
after_last_at-found (c ∷ s) rest h = ground (arith, after_last_at-found s rest h, has_at s rest)

-- A socks5 proxy address with credentials, whatever bytes these hold, is checked as the one
-- without them, if what follows them has no @.
pub validate_proxy-credentials :
    (splits : Text → Bool) (credentials host : Text)
    → Lacks b'@' host
    → validate_proxy splits (codes "socks5://" ++ (credentials ++ b'@' ∷ host))
      ≡ validate_proxy splits (codes "socks5://" ++ host)
unfolding validate_proxy
validate_proxy-credentials splits credentials host h =
    ground (arith, after_last_at-found credentials host h, after_last_at-Lacks host h)
