-- ===== src/Api/Answers.antt =====
-- What the lease handlers of internal/api/api.go answer, and what they change.
use droidpool.Prelude.{
  ◌∙◌, ap, map, text_eq, ℕ, ◌+◌, ◌*◌, ◌^◌, ◌<◌, ◌≤◌, ◌≡◌, refl, subst, ◌⊎◌, inl, inr, Bool, true,
  false, List, [], ◌∷◌, none, some, Text, is_empty, is_some, if◌then◌else◌, any, find?, All, arith,
  Bool-cases, Option-cases,
}
use droidpool.Exec.{ok}
use droidpool.Pool.Time.{Time, at, minute, unix}
use droidpool.Pool.Lease.{Device, AtInstant, has_expired}
use droidpool.Pool.State.{leased, resetting}
use droidpool.Store.Sql.{Tables, healthy, fails, later_faults}
use droidpool.Store.Release.{none_active, ended}
use droidpool.Store.Tables.{
  update_where, DeviceRow, LeaseRow, has_device, has_lease, scan_device, scan_lease, is_for,
}
use droidpool.Store.Rows.{find-update, find-none, any-update}
use droidpool.Store.Consistency.{IsConsistent, IsKnown}
use droidpool.Store.Devices.{get_device, with_state}
use droidpool.Store.Leases.{
  touch, update_lease, release, end_lease, reset_device, get_lease_by_worktree, find_for,
  first_free, is_free, has_id, granted,
}
use droidpool.Store.Claim.{
  claim-reuses, claim-exhausted, claim-grants, first_free-free, first_free-none, some_free,
  after_claim,
}
use droidpool.Api.Leases.{
  Server, Web, Event, minutes, ttl_of, new_lease, ClaimRequest, handle_claim, handle_heartbeat,
  Response, pressed, handle_release, released,
}

-- With a positive maximal term, no lease that a request asks for expires later than that term
-- after now, also where the term in nanoseconds wraps around.
pub new_lease-capped :
    (s : Server) (t : ℕ) (id : Text) (r : ClaimRequest)
    → 0 < s.max_ttl
    → AtInstant (new_lease s (at t) id r).expires_at (λ e. e ≤ t + s.max_ttl)
unfolding new_lease ttl_of minutes
new_lease-capped s t id r pos = ground arith

-- A requested term of 2^63 to 2^64 - 1 nanoseconds wraps around into the negative, and the lease
-- has expired at the moment it is given out.
pub long_term_expires_at_once :
    (s : Server) (t : ℕ) (id : Text) (r : ClaimRequest)
    → 2 ^ 63 ≤ r.ttl_min * minute
    → r.ttl_min * minute < 2 ^ 64
    → has_expired (new_lease s (at t) id r) (at t) ≡ true
unfolding new_lease ttl_of minutes has_expired
long_term_expires_at_once s t id r le lt = ground arith

get_device-there :
    (id : Text) (t : Tables)
    → any (has_device id) t.devices ≡ true
    → (d : Device) × (get_device id (healthy t) ≡ (ok d, healthy t))
unfolding get_device fails later_faults
get_device-there id t h = elim (Option-cases (find? (has_device id) t.devices)) [
  | inl none_there ↦
      absurd (ground (arith, none_there, find-none (has_device id) t.devices none_there))
  | inr (row, found) ↦ (scan_device row, ground (arith, found))
]

IsKnown-row :
    (devices : List DeviceRow) (q : LeaseRow → Bool) (rows : List LeaseRow) (r : LeaseRow)
    → All (IsKnown devices) rows
    → find? q rows ≡ some r
    → IsKnown devices r
IsKnown-row devices q [] r a h = absurd (cc)
IsKnown-row devices q (x ∷ rows) r a h = elim (Bool-cases (q x)) [
  | inl hit ↦ let same : x ≡ r = ground (arith, hit) in subst (IsKnown devices) same a.0
  | inr miss ↦ IsKnown-row devices q rows r a.1 (ground (arith, miss))
]

abbrev pub web_over : Tables → List Event → List Text → Web
web_over t es rs = record { db = healthy t; events = es; resetting = rs }

-- The status of a claim.
abbrev pub claim_status : Server → ClaimRequest → Tables → ℕ
claim_status s r t =
    if is_some (find_for r.host r.worktree t)
    then 200
    else if pressed s.health s.min_avail_mib
    then 503
    else if any (is_free t.leases) t.devices
    then 201
    else 409

-- On consistent tables and a healthy database, under a new id and with a host and a worktree, a
-- claim is answered by 200 if the worktree holds a lease, else by 503 under memory pressure, else
-- by 201 if a device is free, and else by 409; an answer of 300 or more changes nothing.
pub handle_claim-status :
    (s : Server) (now : Time) (id : Text) (r : ClaimRequest) (t : Tables) (es : List Event)
    (rs : List Text)
    → IsConsistent t
    → any (has_id id) t.leases ≡ false
    → is_empty r.host ≡ false
    → is_empty r.worktree ≡ false
    → ((handle_claim s now id (some r) (web_over t es rs)).0.status ≡ claim_status s r t)
      × ((claim_status s r t < 300)
          ⊎ ((handle_claim s now id (some r) (web_over t es rs)).1 ≡ web_over t es rs))
unfolding handle_claim get_lease_by_worktree fails later_faults new_lease scan_lease
handle_claim-status s now id r t es rs c fresh host tree =
    let l = new_lease s now id r in
    elim (Option-cases (find_for r.host r.worktree t)) [
      | inr (row, held) ↦
          let (d, there) = get_device-there row.device_id t (
            IsKnown-row t.devices (is_for r.host r.worktree) t.leases row c.known
              (unfold find_for in held)) in
          ground (arith, host, tree, held, claim-reuses l now t row held, there)
      | inl new ↦ elim (Option-cases (first_free t)) [
        | inl full ↦
            ground
              (arith, host, tree, new, claim-exhausted l now t new full, first_free-none t full)
        | inr (dev, first) ↦
            let given = claim-grants l now t dev new first fresh in
            let listed = first_free-free t dev first in
            let (d, there) = get_device-there dev.id (after_claim l now dev t) (
              unfold after_claim in
              ground (
                arith,
                listed,
                any-update (has_device dev.id) (has_device dev.id) (with_state leased) t.devices
                    (λ x. refl),
              )) in
            unfold granted in ground (arith, host, tree, new, given, there, some_free t dev first)
      ]
    ]

-- A heartbeat keeps every active lease active, with its expiry, its device and its creation time.
pub handle_heartbeat-keeps_expiry :
    (now : Time) (id j : Text) (web : Web) (r : LeaseRow)
    → find? (has_lease j) web.leases ≡ some r
    → (r' : LeaseRow) × (find? (has_lease j) (handle_heartbeat now id web).1.leases ≡ some r')
      × (r'.expires_at ≡ r.expires_at)
      × (r'.device_id ≡ r.device_id)
      × (r'.created_at ≡ r.created_at)
unfolding handle_heartbeat touch update_lease
handle_heartbeat-keeps_expiry now id j web r h =
    let seen_now = λ (x : LeaseRow). record x { last_seen_at = unix now } in
    let found = find-update (has_lease j) (has_lease id) seen_now web.leases r (λ x. refl) h in
    elim (Bool-cases (fails web.db)) [
      | inl bad ↦ (r, ground (arith, bad, h), refl, refl, refl)
      | inr good ↦ (
        if has_lease id r then seen_now r else r,
        ground (arith, good, found),
        ground arith,
        ground arith,
        ground arith,
      )
    ]

-- Answered by 404, and nothing has changed.
abbrev pub IsGone : Text → Tables → Response × Web → Web → Type 0
IsGone id t x web = (find? (has_lease id) t.leases ≡ none) × (x.0.status ≡ 404) × (x.1 ≡ web)

-- Answered by 204: the rows of this id have this end, so that no lease of the id is active, the
-- lease's device is resetting, and no other row is changed.
abbrev pub IsReleased : Text → ℕ → Tables → Bool → List Event → List Text → Response × Web → Type 0
IsReleased id end t resets es rs x =
    (r : LeaseRow) × (find? (has_lease id) t.leases ≡ some r)
    × (x.0.status ≡ 204)
    × (x.1.leases
        ≡ map (λ l. if text_eq l.id id then record l { released_at = end } else l) t.leases)
    × (find? (has_lease id) x.1.leases ≡ none)
    × (x.1.devices
        ≡ map (λ d. if text_eq d.id r.device_id then record d { state = resetting } else d)
            t.devices)
    × (x.1.events ≡ released id r.device_id ∷ es)
    × (x.1.resetting ≡ (if resets then r.device_id ∷ rs else rs))

update_where-map :
    {A : Type 0} (p : A → Bool) (f : A → A) (rows : List A)
    → update_where p f rows ≡ map (λ r. if p r then f r else r) rows
unfolding update_where
update_where-map p f [] = refl
update_where-map p f (r ∷ rows) = ap (λ t. (if p r then f r else r) ∷ t) (update_where-map p f rows)

-- On a healthy database and after second 0 of 1970, a release is answered by 404 and changes
-- nothing if no lease of this id is active; otherwise it is answered by 204, the rows of this id
-- have now as the time of their release and are otherwise as before, so that no lease of this id
-- is active, the lease's device is resetting, no other row has changed, this is published once,
-- and the reset of the lease's device is started exactly if the server resets.
pub handle_release-answers :
    (s : Server) (now : Time) (id : Text) (t : Tables) (es : List Event) (rs : List Text)
    → 0 < unix now
    → let x = handle_release s now id (web_over t es rs) in
      IsGone id t x (web_over t es rs) ⊎ IsReleased id (unix now) t s.resets es rs x
unfolding handle_release release end_lease reset_device fails later_faults
handle_release-answers s now id t es rs later =
    elim (Option-cases (find? (has_lease id) t.leases)) [
      | inl gone ↦ inl (gone, ground (arith, gone), ground (arith, gone))
      | inr (r, there) ↦ inr (
        r,
        there,
        ground (arith, there),
        ground (arith, there) ∙ update_where-map (has_id id) (ended (unix now)) t.leases,
        rw there (none_active id (unix now) t.leases later),
        ground (arith, there)
            ∙ update_where-map (has_device r.device_id) (with_state resetting) t.devices,
        ground (arith, there),
        ground (arith, there),
      )
    ]
