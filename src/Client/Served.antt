-- ===== src/Client/Served.antt =====
-- The client's release in cmd/droidpool/main.go over the server's in internal/api/api.go.
use droidpool.Prelude.{
  ℕ, ◌<◌, ◌≡◌, refl, ◌∙◌, ap, ◌⊎◌, inl, inr, true, false, List, [], ◌∷◌, none, arith, if◌then◌else◌,
  is_empty, Text, codes, text_eq, find?,
}
use droidpool.Prelude.Strings.{Lacks}
use droidpool.Exec.{Error, Result, ok, err, not_found}
use droidpool.Pool.Time.{Time, unix}
use droidpool.Store.Sql.{Db}
use droidpool.Store.Tables.{has_lease}
use droidpool.Store.Leases.{release, end_lease, reset_device}
use droidpool.Store.Release.{none_active, released_rows}
use droidpool.Api.Leases.{
  Server, Web, ErrorKind, bad_request, under_pressure, pool_exhausted, internal, missing, failure,
  after_released, handle_release, Response as ServerResponse, Body as ServerBody,
}
use droidpool.Client.{LeaseState, absent, holds, Shell, Act, Outside, Response, answered, Body}
use droidpool.Client.Commands.{cmd_release}
use droidpool.Client.Released.{is_settled, deletion, cmd_release-Settles}

-- The field `error` of an answer.
unfoldable pub kind_name : ErrorKind → Text
kind_name bad_request = codes "bad_request"
kind_name under_pressure = codes "under_pressure"
kind_name pool_exhausted = codes "pool_exhausted"
kind_name internal = codes "internal"
kind_name missing = codes "not_found"

abbrev error_of : ServerBody → Text
error_of (failure k) = kind_name k
error_of b = []

-- The server's answer as the client reads it, with any message, text and body.
abbrev pub as_read : ServerResponse → Text → Text → Body → Response
as_read r message raw b = answered r.status (error_of r.body) message raw b

released_or_missing :
    (id : Text) (now : Time) (db db' : Db)
    → release id now db ≡ (err not_found, db')
    → (find? (has_lease id) db.leases ≡ none) × (db'.tables ≡ db.tables)
unfolding release
released_or_missing id now db db' e = (ground (arith, e), ground (arith, e))

-- The command ends well, the record is gone if it can be removed, and no lease of this id is active;
-- or it fails, the record stays, and the server's rows are as they were.
abbrev pub Ends : Outside → LeaseState → List Act → Web → Web → (Unit {0} ⊎ ℕ) × Shell → Type 0
Ends o st acts web web' x =
    let sent = deletion st ∷ acts in
    (x ≡ (inl tt, record { file = if o.writes sent then absent else holds st; acts = sent }))
      × (find? (has_lease st.lease_id) web'.leases ≡ none)
    ⊎ (x ≡ (inr 1, record { file = holds st; acts = sent })) × (web'.tables ≡ web.tables)

-- The answer is taken as settled, and no lease of this id is active; or it is not, and no row changed.
abbrev IsTold : Text → Text → Text → Body → Web → ServerResponse × Web → Type 0
IsTold id message raw b web x =
    (is_settled (as_read x.0 message raw b) ≡ true) × (find? (has_lease id) x.1.leases ≡ none)
    ⊎ (is_settled (as_read x.0 message raw b) ≡ false) × (x.1.tables ≡ web.tables)

no_change :
    (id : Text) (now : Time) (db db' : Db) (e : Error)
    → release id now db ≡ (err e, db')
    → db'.tables ≡ db.tables
unfolding release
no_change id now db db' e h = ground (arith, h)

after_released-IsTold :
    (s : Server) (now : Time) (id : Text) (web : Web) (message raw : Text) (b : Body)
    (x : Result Text × Db)
    → 0 < unix now
    → release id now web.db ≡ x
    → IsTold id message raw b web (after_released s id web x)
unfolding kind_name text_eq
after_released-IsTold s now id web message raw b (ok dev, db) pos e = inl (
  refl,
  rw (released_rows id now web.db db dev e)
      (unfold reset_device end_lease in none_active id (unix now) web.leases pos),
)
after_released-IsTold s now id web message raw b (err not_found, db) pos e =
    let (gone, same) = released_or_missing id now web.db db e in inl (refl, rw same gone)
after_released-IsTold s now id web message raw b (err e, db) pos h =
    inr (refl, no_change id now web.db db e h)

error_of-Lacks : (b : ServerBody) → Lacks b':' (error_of b)
unfolding kind_name
error_of-Lacks (failure bad_request) = refl
error_of-Lacks (failure under_pressure) = refl
error_of-Lacks (failure pool_exhausted) = refl
error_of-Lacks (failure internal) = refl
error_of-Lacks (failure missing) = refl
error_of-Lacks b = refl

-- After second 0 of 1970, with a local record of a lease and the server's answer to the request
-- arriving, the client's release over the server's handler has one of two outcomes, whichever
-- statements on the database fail: the command ends well, the record is gone unless its removal
-- fails, and the server has no active lease of this id; or the command fails, the record stays,
-- and no row of the server has changed.
pub cmd_release-Ends :
    (o : Outside) (s : Server) (now : Time) (web : Web) (st : LeaseState) (acts : List Act)
    (message raw : Text) (b : Body)
    → is_empty st.lease_id ≡ false
    → 0 < unix now
    → o.response (deletion st ∷ acts)
      ≡ as_read (handle_release s now st.lease_id web).0 message raw b
    → Ends o st acts web
        (handle_release s now st.lease_id web).1
        (cmd_release o (record { file = holds st; acts = acts }))
unfolding handle_release
cmd_release-Ends o s now web st acts message raw b named pos e =
    let r = (handle_release s now st.lease_id web).0 in
    let ends = cmd_release-Settles o st acts named (rw e (error_of-Lacks r.body)) in
    elim (after_released-IsTold s now st.lease_id web message raw b (release st.lease_id now web.db)
      pos refl) [
        | inl (told, gone) ↦ inl (ends ∙ (rw (ap is_settled e ∙ told) refl), gone)
        | inr (told, same) ↦ inr (ends ∙ (rw (ap is_settled e ∙ told) refl), same)
      ]
