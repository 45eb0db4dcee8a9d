-- ===== src/Tests/Start.antt =====
-- A live session, and a request without a token.
use droidpool.Prelude.{
  List, Text, ◌⊎◌, ◌≡◌, refl, true, false, [], ◌∷◌, codes, text_eq, find?, arith,
}
use droidpool.Exec.{ok}
use droidpool.Manager.Index.{strip_prefix}
use droidpool.Api.Sessions.{empty, is_of}
use droidpool.Api.Live.{started, open_socket}
use droidpool.Api.Live.Opened.{Settled, open_socket-Settled}
use droidpool.Api.Routes.{serve, moved, is_moved, has_token}
use droidpool.Api.Routes.Guarded.{IsRefusal, lease_path, serve-IsRefusal}
use droidpool.Tests.Wall.{device}

open_socket-Settled_example :
    let x = open_socket (codes "s.jar") 27200 (ok device) true (started 7 true) empty in
    Settled (codes "n-1") 27200 (started 7 true) empty x
    × (find? (is_of (codes "n-2")) x.1.live ≡ find? (is_of (codes "n-2")) empty.live)
unfolding text_eq
open_socket-Settled_example =
    open_socket-Settled (codes "n-1") (codes "n-2") refl (codes "s.jar") 27200 device true
      (started 7 true) empty refl (omega arith)

wrong_token : has_token (codes "t") (codes "Bearer u") ≡ false
unfolding has_token text_eq strip_prefix
wrong_token = refl

abbrev lease_sent : List Text
lease_sent = lease_path (codes "L1" ∷ [])

serve-IsRefusal_example :
    let answer = serve (λ t. t) (codes "t") (codes "Bearer u") (codes "DELETE") lease_sent in
    (is_moved (codes "DELETE") lease_sent ≡ true) × (answer ≡ moved)
    ⊎ (is_moved (codes "DELETE") lease_sent ≡ false) × IsRefusal answer
serve-IsRefusal_example =
    serve-IsRefusal (λ t. t) (codes "t") (codes "Bearer u") (codes "DELETE") lease_sent
      (codes "L1" ∷ []) refl wrong_token
