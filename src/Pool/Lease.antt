-- ===== src/Pool/Lease.antt =====
-- internal/pool/model.go: devices, leases, the watchdog's three gates and the idempotency key.
use mathlib.Core.List.{tail-eq_of_cons-eq}
use droidpool.Prelude.{
  ℕ, ◌+◌, ◌≤◌, ◌<◌, ◌≡◌, refl, Bool, false, not, ◌&&◌, [], ◌∷◌, ◌++◌, Option, none, some, arith,
  ltb, if◌then◌else◌, length, Text,
}
use droidpool.Prelude.Decimal.{is_digit, decimal, decimal_prefix_free}
use droidpool.Pool.State.{DeviceState}
use droidpool.Pool.Time.{Time, zero_time, at, is_zero, before, elapsed}
use droidpool.Pool.Identity.{Identity}

-- `P` of the instant; the zero time has none.
abbrev pub AtInstant : Time → (ℕ → Type 0) → Type 0
AtInstant zero_time P = ⊥
AtInstant (at n) P = P n

pub record Device : Type 0 where
  pub id : Text
  pub node : Text
  pub container : Text
  pub adb_addr : Text
  pub state : DeviceState
  pub created_at : Time
  pub last_healthy : Time
  pub health_fails : ℕ
  pub egress_proxy : Text
  pub camera_rtsp : Text
  pub identity : Option Identity
  pub mock_location : Text

abbrev pub health_fail_threshold : ℕ
health_fail_threshold = 3

-- `unset` is the empty string.
pub data EdgeMode : Type 0 where
  unset shared dedicated : EdgeMode

pub record Lease : Type 0 where
  pub id : Text
  pub device_id : Text
  pub owner : Text
  pub host : Text
  pub worktree : Text
  pub branch : Text
  pub head_sha : Text
  pub created_at : Time
  pub expires_at : Time
  pub last_seen_at : Time
  pub human_takeover : Bool
  pub human_note : Text
  pub edge_mode : EdgeMode

unfoldable pub has_expired : Lease → Time → Bool
has_expired l now = not (before now l.expires_at)

pub data ReapReason : Type 0 where
  ttl_expired idle_timeout max_lifetime : ReapReason

-- `none` is the empty reason. A limit of 0 switches its gate off.
unfoldable pub should_reap : Lease → Time → ℕ → ℕ → Option ReapReason
unfolding has_expired
should_reap l now idle_limit life_limit =
    if ltb 0 life_limit && not (is_zero l.created_at) && elapsed now l.created_at life_limit
    then some max_lifetime
    else if has_expired l now
    then some ttl_expired
    else if ltb 0 idle_limit
        && not l.human_takeover
        && not (is_zero l.last_seen_at)
        && elapsed now l.last_seen_at idle_limit
    then some idle_timeout
    else none

-- fmt.Sprintf("%d:%s|%d:%s", len(host), host, len(worktree), worktree)
unfoldable pub key_of : Text → Text → Text
key_of host worktree =
    decimal (length host) ++ b':' ∷ (host ++ b'|' ∷ (decimal (length worktree) ++ b':' ∷ worktree))

unfoldable pub idempotency_key : Lease → Text
unfolding key_of
idempotency_key l = key_of l.host l.worktree

append_cancel : (s t u v : Text) → length s ≡ length t → s ++ u ≡ t ++ v → (s ≡ t) × (u ≡ v)
append_cancel [] [] u v h e = (refl, e)
append_cancel [] (y ∷ t) u v h e = absurd (omega arith)
append_cancel (x ∷ s) [] u v h e = absurd (omega arith)
append_cancel (x ∷ s) (y ∷ t) u v h e =
    let (p, q) = append_cancel s t u v (omega arith) (tail-eq_of_cons-eq e) in (cc, q)

colon_ends : is_digit b':' ≡ false
unfolding is_digit
colon_ends = refl

key_of-injective : (h w h' w' : Text) → key_of h w ≡ key_of h' w' → (h ≡ h') × (w ≡ w')
unfolding key_of
key_of-injective h w h' w' e =
    let (n, rest) = decimal_prefix_free (length h) (length h') b':' _ _ colon_ends e in
    let (hosts, tails) = append_cancel h h' _ _ n rest in
    let (_, trees) =
      decimal_prefix_free (length w) (length w') b':' _ _ colon_ends (tail-eq_of_cons-eq tails) in
    (hosts, trees)

-- Two leases with the same idempotency key have the same host and the same worktree, whatever
-- bytes these hold.
pub idempotency_key-injective :
    (l m : Lease)
    → idempotency_key l ≡ idempotency_key m
    → (l.host ≡ m.host) × (l.worktree ≡ m.worktree)
unfolding idempotency_key
idempotency_key-injective l m e = key_of-injective l.host l.worktree m.host m.worktree e

-- The three gates as propositions.
abbrev pub Outlived : Lease → ℕ → ℕ → Type 0
Outlived l now limit = AtInstant l.created_at (λ c. (0 < limit) × (c + limit ≤ now))

abbrev pub Lapsed : Lease → ℕ → Type 0
Lapsed l now = ¬ AtInstant l.expires_at (λ e. now < e)

abbrev pub Idle : Lease → ℕ → ℕ → Type 0
Idle l now limit =
    AtInstant l.last_seen_at (λ s. (0 < limit) × (s + limit ≤ now)) × (l.human_takeover ≡ false)

-- What each answer of `should_reap` means: the first closed gate in the order of the checks.
abbrev pub Verdict : Lease → ℕ → ℕ → ℕ → Option ReapReason → Type 0
Verdict l now idle life none = (¬ Outlived l now life) × (¬ Lapsed l now) × (¬ Idle l now idle)
Verdict l now idle life (some max_lifetime) = Outlived l now life
Verdict l now idle life (some ttl_expired) = (¬ Outlived l now life) × Lapsed l now
Verdict l now idle life (some idle_timeout) =
    (¬ Outlived l now life) × (¬ Lapsed l now) × Idle l now idle
