-- ===== src/Api/Routes.antt =====
-- internal/api/api.go: which handler a request reaches, and the token that some of them ask for. The
-- rules by which http.ServeMux matches are those of its documentation: no two patterns here overlap.
pub mod Guarded
use droidpool.Prelude.{
  ℕ, Bool, true, false, not, ◌&&◌, ◌||◌, List, [], ◌∷◌, ◌++◌, map, Option, none, some,
  if◌then◌else◌, is_empty, Text, codes, text_eq,
}
use droidpool.Manager.Index.{strip_prefix}
use droidpool.Api.Urls.{trim_prefix}

-- A segment of a pattern: a word, or `{id}`.
pub data Segment : Type 0 where
  word : Text → Segment
  any_word : Segment

pub data Handler : Type 0 where
  health claim list_leases renew heartbeat human release list_devices : Handler
  wall_data events screenshot stream h264_stream socket input : Handler
  set_egress ui_dump set_camera set_identity set_location wall_page device_page : Handler

pub record Route : Type 0 where
  pub method : Text
  pub path : List Segment
  pub guarded : Bool
  pub handler : Handler

abbrev route : Text → List Segment → Bool → Handler → Route
route m p g h = record { method = m; path = p; guarded = g; handler = h }

abbrev get : Text
get = codes "GET"

abbrev put : Text
put = codes "PUT"

abbrev post : Text
post = codes "POST"

abbrev delete : Text
delete = codes "DELETE"

abbrev api : List Segment → List Segment
api p = word (codes "api") ∷ p

abbrev of_lease : List Segment → List Segment
of_lease p = api (word (codes "leases") ∷ p)

abbrev of_device : Text → List Segment
of_device what = api (word (codes "devices") ∷ any_word ∷ word what ∷ [])

unfoldable pub routes : List Route
routes =
    route get (api (word (codes "health") ∷ [])) false health
    ∷ route post (of_lease []) true claim
    ∷ route get (of_lease []) true list_leases
    ∷ route post (of_lease (any_word ∷ word (codes "renew") ∷ [])) true renew
    ∷ route post (of_lease (any_word ∷ word (codes "heartbeat") ∷ [])) true heartbeat
    ∷ route post (of_lease (any_word ∷ word (codes "human") ∷ [])) true human
    ∷ route delete (of_lease (any_word ∷ [])) true release
    ∷ route get (api (word (codes "devices") ∷ [])) true list_devices
    ∷ route get (api (word (codes "wall") ∷ [])) false wall_data
    ∷ route get (api (word (codes "events") ∷ [])) false events
    ∷ route get (of_device (codes "screenshot.jpg")) false screenshot
    ∷ route get (of_device (codes "stream.mjpg")) false stream
    ∷ route get (of_device (codes "stream.h264")) false h264_stream
    ∷ route get (of_device (codes "ws")) false socket
    ∷ route post (of_device (codes "input")) false input
    ∷ route put (of_device (codes "egress")) false set_egress
    ∷ route get (of_device (codes "ui")) false ui_dump
    ∷ route put (of_device (codes "camera")) false set_camera
    ∷ route put (of_device (codes "identity")) false set_identity
    ∷ route put (of_device (codes "location")) false set_location
    ∷ route get (word [] ∷ []) false wall_page
    ∷ route get (word (codes "device") ∷ any_word ∷ []) false device_page
    ∷ []

-- The path is given by its segments; that of "/" is one that is empty.
unfoldable pub matches : List Segment → List Text → Bool
unfolding text_eq
matches [] [] = true
matches [] (t ∷ ts) = false
matches (s ∷ p) [] = false
matches (word w ∷ p) (t ∷ ts) = text_eq w t && matches p ts
matches (any_word ∷ p) (t ∷ ts) = not (is_empty t) && matches p ts

-- A handler for GET is one for HEAD too.
unfoldable pub serves : Text → Text → Bool
unfolding text_eq
serves method asked = text_eq method asked || text_eq method get && text_eq asked (codes "HEAD")

-- The `Bearer` in front of the token may be left out; without a token nothing is let in.
unfoldable pub has_token : Text → Text → Bool
unfolding strip_prefix text_eq
has_token token authorization =
    not (is_empty token) && text_eq (trim_prefix (codes "Bearer ") authorization) token

pub data Served : Type 0 where
  not_found wrong_method unauthorized moved : Served
  handled : Handler → Served

abbrev pub guard : Text → Text → Route → Served
guard token authorization r =
    if r.guarded && not (has_token token authorization) then unauthorized else handled r.handler

-- `seen` is whether a route of another method matched.
unfoldable pub dispatch : List Route → Bool → Text → Text → Text → List Text → Served
unfolding matches serves has_token
dispatch [] seen token authorization method path = if seen then wrong_method else not_found
dispatch (r ∷ rs) seen token authorization method path =
    let here = matches r.path path in
    let rest = dispatch rs (seen || here) token authorization method path in
    if here && serves r.method method then guard token authorization r else rest

abbrev is_dots : Text → Bool
is_dots t = text_eq t (codes ".") || text_eq t (codes "..")

-- Whether cleaning the path changes it: a segment of dots, or an empty one that is not the last.
unfoldable pub is_unclean : List Text → Bool
unfolding text_eq
is_unclean [] = false
is_unclean (t ∷ []) = is_dots t
is_unclean (t ∷ u ∷ ts) = is_empty t || (is_dots t || is_unclean (u ∷ ts))

-- The paths of requests other than CONNECT are cleaned.
abbrev pub is_moved : Text → List Text → Bool
is_moved method sent = not (text_eq method (codes "CONNECT")) && is_unclean sent

-- `sent` are the segments as they were sent, of which `unescape` undoes the percent signs. A path
-- that is not clean is redirected to the clean one.
unfoldable pub serve : (Text → Text) → Text → Text → Text → List Text → Served
unfolding routes is_unclean dispatch
serve unescape token authorization method sent =
    let answer = dispatch routes false token authorization method (map unescape sent) in
    if is_moved method sent then moved else answer

-- A page: sent on to the address with TLS if there is one, or else shown.
pub data Page : Type 0 where
  redirect : Text → Page
  lost : Page
  shown : Text → Page

unfoldable pub serve_page : Text → Bool → Text → Option Text → Page
serve_page wall_url tls uri content =
    if not (is_empty wall_url) && not tls then redirect (wall_url ++ uri) else found content
  where
    found : Option Text → Page
    found none = lost
    found (some b) = shown b
