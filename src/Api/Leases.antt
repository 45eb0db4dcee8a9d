-- ===== src/Api/Leases.antt =====
-- internal/api/api.go: the lease handlers. A request is `none` if its body is not the JSON that is
-- asked for. The state is the database, the events published so far, newest first, and the devices
-- whose reset has been started in the background. The clock and the new id are arguments.
use droidpool.Prelude.{
  ℕ, ◌+◌, ◌-◌, ◌*◌, ◌%◌, ◌^◌, Bool, false, ◌&&◌, ◌||◌, List, [], ◌∷◌, Option, none, some, Text, ltb,
  is_empty, if◌then◌else◌,
}
use droidpool.Exec.{Result, ok, err, not_found, no_free_device}
use droidpool.Pool.Time.{Time, zero_time, at, minute}
use droidpool.Pool.Lease.{Device, Lease, shared}
use droidpool.Store.Sql.{Db}
use droidpool.Store.Devices.{get_device}
use droidpool.Store.Leases.{claim, release, renew, touch, set_human_takeover, get_lease_by_worktree}

-- A time.Duration that may have wrapped around into the negative: `back n` is -n.
pub data Duration : Type 0 where
  span back : ℕ → Duration

-- `health` is the available memory in MiB, if there is a health source and it answers.
pub record Server : Type 0 where
  pub default_ttl : ℕ
  pub max_ttl : ℕ
  pub min_avail_mib : ℕ
  pub health : Option ℕ
  pub resets : Bool

pub data Event : Type 0 where
  claimed : Text → Text → Text → Event
  human : Text → Bool → Event
  released : Text → Text → Event

pub record Web : Type 0 where
  pub db : Db
  pub open db use *
  pub events : List Event
  pub resetting : List Text

pub data ErrorKind : Type 0 where
  bad_request under_pressure pool_exhausted internal missing : ErrorKind

pub data Body : Type 0 where
  failure : ErrorKind → Body
  lease : Text → Text → Text → Time → Bool → Body
  expiry seen : Time → Body
  takeover : Bool → Body
  no_content : Body

pub record Response : Type 0 where
  pub status : ℕ
  pub body : Body

abbrev pub reply : ℕ → Body → Web → Response × Web
reply status body web = (record { status = status; body = body }, web)

abbrev pub fail : ℕ → ErrorKind → Web → Response × Web
fail status kind web = reply status (failure kind) web

-- time.Duration(n) * time.Minute, in 64 bits.
unfoldable pub minutes : ℕ → Duration
minutes n = let p = (n * minute) % 2 ^ 64 in if ltb p (2 ^ 63) then span p else back (2 ^ 64 - p)

abbrev pub exceeds : Duration → ℕ → Bool
exceeds (span d) limit = ltb limit d
exceeds (back d) limit = false

-- The requested term or else the default, and at most the maximum if there is one.
unfoldable pub ttl_of : Server → ℕ → Duration
unfolding minutes
ttl_of s ttl_min =
    let ttl = if ltb 0 ttl_min then minutes ttl_min else span s.default_ttl in
    if ltb 0 s.max_ttl && exceeds ttl s.max_ttl then span s.max_ttl else ttl

-- now.Add(ttl)
abbrev pub add_duration : Time → Duration → Time
add_duration zero_time d = zero_time
add_duration (at n) (span d) = at (n + d)
add_duration (at n) (back d) = at (n - d)

-- h.UnderPressure(minAvailMiB)
unfoldable pub is_under_pressure : ℕ → ℕ → Bool
is_under_pressure mem_avail min_avail = ltb 0 min_avail && ltb mem_avail min_avail

abbrev pub pressed : Option ℕ → ℕ → Bool
pressed none min_avail = false
pressed (some mem) min_avail = is_under_pressure mem min_avail

pub record ClaimRequest : Type 0 where
  pub owner : Text
  pub host : Text
  pub worktree : Text
  pub branch : Text
  pub head_sha : Text
  pub ttl_min : ℕ

unfoldable pub new_lease : Server → Time → Text → ClaimRequest → Lease
new_lease s now id r = record {
  id = id;
  device_id = [];
  owner = r.owner;
  host = r.host;
  worktree = r.worktree;
  branch = r.branch;
  head_sha = r.head_sha;
  created_at = now;
  expires_at = add_duration now (ttl_of s r.ttl_min);
  last_seen_at = zero_time;
  human_takeover = false;
  human_note = [];
  edge_mode = shared;
}

-- A failure to touch the lease is logged only.
abbrev pub answer_claim : Time → Lease → Bool → Web → Result Device × Db → Response × Web
answer_claim now got reused web (err e, db) = fail 500 internal (record web { db = db })
answer_claim now got reused web (ok d, db) =
    let touched = record web { db = (touch got.id now db).1 } in
    let body = lease got.id got.device_id d.adb_addr got.expires_at reused in
    if reused
    then reply 200 body touched
    else reply 201 body
        (record touched { events = claimed got.id got.device_id got.worktree ∷ web.events })

abbrev pub after_claimed : Time → Web → Result (Lease × Bool) × Db → Response × Web
after_claimed now web (err no_free_device, db) = fail 409 pool_exhausted (record web { db = db })
after_claimed now web (err e, db) = fail 500 internal (record web { db = db })
after_claimed now web (ok (got, reused), db) =
    answer_claim now got reused (record web { db = db }) (get_device got.device_id db)

abbrev pub grant : Time → Lease → Web → Response × Web
grant now l web = after_claimed now web (claim l now web.db)

-- Under pressure only a lease that is there already is given out.
abbrev pub admit : Time → Lease → Web → Result Lease × Db → Response × Web
admit now l web (err not_found, db) = fail 503 under_pressure (record web { db = db })
admit now l web (r, db) = grant now l (record web { db = db })

unfoldable pub handle_claim : Server → Time → Text → Option ClaimRequest → Web → Response × Web
handle_claim s now id none web = fail 400 bad_request web
handle_claim s now id (some r) web =
    if is_empty r.host || is_empty r.worktree
    then fail 400 bad_request web
    else if pressed s.health s.min_avail_mib
    then admit now (new_lease s now id r) web (get_lease_by_worktree r.host r.worktree web.db)
    else grant now (new_lease s now id r) web

-- `not_found` is answered by 404 and any other error by 500.
abbrev pub unless_failed : Web → (Web → Response × Web) → Result (Unit {0}) × Db → Response × Web
unless_failed web k (ok u, db) = k (record web { db = db })
unless_failed web k (err not_found, db) = fail 404 missing (record web { db = db })
unless_failed web k (err e, db) = fail 500 internal (record web { db = db })

-- The two readings of the clock are `now` and `later`.
unfoldable pub handle_renew : Server → Time → Time → Text → ℕ → Web → Response × Web
handle_renew s now later id ttl_min web =
    let new_expiry = add_duration now (ttl_of s ttl_min) in
    unless_failed web
      (λ renewed.
        reply 200 (expiry new_expiry) (record renewed { db = (touch id later renewed.db).1 }))
      (renew id new_expiry web.db)

unfoldable pub handle_heartbeat : Time → Text → Web → Response × Web
handle_heartbeat now id web = unless_failed web (reply 200 (seen now)) (touch id now web.db)

unfoldable pub handle_human : Text → Option (Bool × Text) → Web → Response × Web
handle_human id none web = fail 400 bad_request web
handle_human id (some (on, note)) web =
    unless_failed web
      (λ set. reply 200 (takeover on) (record set { events = human id on ∷ set.events }))
      (set_human_takeover id on note web.db)

abbrev pub after_released : Server → Text → Web → Result Text × Db → Response × Web
after_released s id web (err not_found, db) = fail 404 missing (record web { db = db })
after_released s id web (err e, db) = fail 500 internal (record web { db = db })
after_released s id web (ok dev, db) = reply 204 no_content (record web {
  db = db;
  events = released id dev ∷ web.events;
  resetting = if s.resets then dev ∷ web.resetting else web.resetting;
})

unfoldable pub handle_release : Server → Time → Text → Web → Response × Web
handle_release s now id web = after_released s id web (release id now web.db)
