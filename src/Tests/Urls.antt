-- ===== src/Tests/Urls.antt =====
-- Addresses that are shown and checked.
use droidpool.Prelude.{◌≡◌, refl, ◌++◌, ◌∷◌, codes}
use droidpool.Api.Urls.{mask_url_credentials}
use droidpool.Api.Masked.{mask-hides}

mask-hides_example :
    mask_url_credentials (
      codes "rtsp"
      ++ (codes "://" ++ ((codes "me" ++ b':' ∷ codes "pa") ++ b'@' ∷ codes "ss@cam/1")))
    ≡ codes "rtsp" ++ (codes "://" ++ (codes "me" ++ (codes ":***@" ++ codes "ss@cam/1")))
mask-hides_example =
    mask-hides (codes "rtsp") (codes "me") (codes "pa") (codes "ss@cam/1") refl refl refl refl
