-- ===== src/Client/Released.antt =====
-- When `cmdRelease` of cmd/droidpool/main.go gives up the local record, and what `cmdClaim` records.
use droidpool.Prelude.{
  ◌≡◌, refl, ap, ◌∙◌, Bool, true, false, not, ◌&&◌, ◌||◌, List, [], ◌∷◌, ◌++◌, none, inl, inr,
  arith, if◌then◌else◌, ltb, leb, ◌==◌, is_empty, Text, codes, text_eq, Bool-cases, Option-cases,
}
use droidpool.Prelude.Strings.{Lacks, trim_space}
use droidpool.Manager.Index.{strip_prefix}
use droidpool.Api.Urls.{has_prefix}
use droidpool.Client.{
  LeaseState, absent, holds, Shell, Act, http, Outside, Response, lost, answered, Answer, answer_of,
  release_outcome, load_state, call, claim_worktree, session_key,
}
use droidpool.Client.Commands.{cmd_release, settle, cmd_claim, save_state, warns, held_here}

prefix-colon :
    (p e rest : Text)
    → Lacks b':' p
    → Lacks b':' e
    → has_prefix (p ++ b':' ∷ []) (e ++ b':' ∷ rest) ≡ text_eq e p
unfolding strip_prefix text_eq
prefix-colon [] [] rest hp he = refl
prefix-colon [] (c ∷ e) rest hp he = ground arith
prefix-colon (c ∷ p) [] rest hp he = ground arith
prefix-colon (c ∷ p) (d ∷ e) rest hp he = ground (arith, prefix-colon p e rest)

-- The server has released the lease, or knows of no such lease.
abbrev pub is_settled : Response → Bool
is_settled (lost e) = false
is_settled (answered code e message raw body) =
    ltb code 400 || ((code == 404) && text_eq e (codes "not_found"))

-- The name of an error has no colon in it.
abbrev pub IsNamed : Response → Type 0
IsNamed (lost e) = Unit {0}
IsNamed (answered code e message raw body) = Lacks b':' e

outcome-settled :
    (r : Response)
    → IsNamed r
    → release_outcome (answer_of r).code (answer_of r).failure ≡ (is_settled r, is_settled r)
unfolding release_outcome answer_of
outcome-settled (lost e) h = refl
outcome-settled (answered code e message raw body) h =
    let shown = if is_empty message then trim_space raw else message in
    let named = prefix-colon (codes "not_found") e (b' ' ∷ shown) refl h in
    elim (Bool-cases (leb 400 code)) [
      | inl refused ↦ rw (refused, named) (ground (arith, refused))
      | inr fine ↦ rw fine (ground (arith, fine))
    ]

abbrev pub deletion : LeaseState → Act
deletion st = http (codes "DELETE") (codes "/api/leases/" ++ st.lease_id) []

cmd_release-sent :
    (o : Outside) (st : LeaseState) (acts : List Act)
    → is_empty st.lease_id ≡ false
    → cmd_release o (record { file = holds st; acts = acts })
      ≡ settle o
          (release_outcome
            (answer_of (o.response (deletion st ∷ acts))).code
            (answer_of (o.response (deletion st ∷ acts))).failure)
          (record { file = holds st; acts = deletion st ∷ acts })
unfolding cmd_release load_state call
cmd_release-sent o st acts named = rw named refl

settled-eq :
    (o : Outside) (st : LeaseState) (acts : List Act) (b : Bool)
    → settle o (b, b) (record { file = holds st; acts = acts }) ≡ (
        if b
        then (inl tt, record { file = if o.writes acts then absent else holds st; acts = acts })
        else (inr 1, record { file = holds st; acts = acts }))
unfolding settle
settled-eq o st acts false = refl
settled-eq o st acts true = elim (Bool-cases (o.writes acts)) [
  | inl w ↦ rw w refl
  | inr w ↦ rw w refl
]

-- With a local record of a lease, and errors that the server names without a colon, releasing asks
-- the server once; the record is removed (unless the removal fails) and the command ends well if
-- the server answers below 400 or that it knows of no such lease, by 404 and the error not_found;
-- otherwise, as without an answer or with another 404, the record stays and the command fails.
pub cmd_release-Settles :
    (o : Outside) (st : LeaseState) (acts : List Act)
    → is_empty st.lease_id ≡ false
    → IsNamed (o.response (deletion st ∷ acts))
    → cmd_release o (record { file = holds st; acts = acts }) ≡ (
        if is_settled (o.response (deletion st ∷ acts))
        then (
          inl tt,
          record {
            file = if o.writes (deletion st ∷ acts) then absent else holds st;
            acts = deletion st ∷ acts;
          },
        )
        else (inr 1, record { file = holds st; acts = deletion st ∷ acts }))
cmd_release-Settles o st acts named known =
    let r = o.response (deletion st ∷ acts) in
    let after : Shell = record { file = holds st; acts = deletion st ∷ acts } in
    let sent = cmd_release-sent o st acts named in
    sent
    ∙ ap (λ (p : Bool × Bool). settle o p after) (outcome-settled r known)
    ∙ settled-eq o st (deletion st ∷ acts) (is_settled r)

abbrev claim_request : Text → Text → Text → Text → Text → Text → Act
claim_request user host worktree session branch head = http (codes "POST") (codes "/api/leases") (
    (codes "owner", user ++ b'@' ∷ host)
    ∷ (codes "host", host)
    ∷ (codes "worktree", claim_worktree worktree (session_key session))
    ∷ (codes "branch", branch)
    ∷ (codes "head_sha", head)
    ∷ [])

-- A claim that succeeds named a worktree and got an answer without failure; the file then holds the
-- lease of that answer, and a warning is given where the lease is reused but was not held here.
pub cmd_claim-Records :
    (o : Outside) (user host worktree session branch head : Text) (s s' : Shell) (w : Bool)
    → cmd_claim o user host worktree session branch head s ≡ (inl w, s')
    → (a : Answer) × (a.failure ≡ none)
      × (s'.file ≡ holds a.body.lease)
      × (w ≡ (a.body.reused && not (held_here a.body.lease.lease_id s.file)))
      × (is_empty worktree ≡ false)
unfolding cmd_claim call save_state warns
cmd_claim-Records o user host worktree session branch head s s' w e =
    elim (Bool-cases (is_empty worktree)) [
      | inl no_repository ↦ absurd (ground (arith, no_repository))
      | inr named ↦
          let acts = claim_request user host worktree session branch head ∷ s.acts in
          let a = answer_of (o.response acts) in
          elim (Option-cases a.failure) [
            | inr (x, failed) ↦ absurd (ground (arith, named, failed))
            | inl fine ↦ elim (Bool-cases (o.writes acts)) [
              | inr unwritten ↦ absurd (ground (arith, named, fine, unwritten))
              | inl written ↦ (
                a,
                fine,
                ground (arith, named, fine, written),
                ground (arith, named, fine, written),
                named,
              )
            ]
          ]
    ]
