-- ===== src/Pool/Watchdog.antt =====
-- What `ShouldReap` of internal/pool/model.go decides.
use droidpool.Prelude.{ℕ, ◌+◌, ◌≤◌, ◌<◌, ◌≡◌, ◌≢◌, true, some, arith}
use droidpool.Pool.Time.{Time, at}
use droidpool.Pool.Lease.{Lease, idle_timeout, max_lifetime, should_reap, Verdict}

-- ShouldReap names the first closed gate in the order lifetime, expiry, idleness, and a lease that
-- is kept has none of the three closed.
pub should_reap-Verdict :
    (l : Lease) (now idle life : ℕ) → Verdict l now idle life (should_reap l (at now) idle life)
unfolding should_reap
should_reap-Verdict l now idle life = ground arith

-- A lease with a creation time is reaped once the maximal lifetime has passed, whatever its expiry,
-- heartbeats and takeover flag are.
pub lifetime_is_capped :
    (l : Lease) (c now idle life : ℕ)
    → l.created_at ≡ at c
    → 0 < life
    → c + life ≤ now
    → should_reap l (at now) idle life ≡ some max_lifetime
unfolding should_reap
lifetime_is_capped l c now idle life e pos le = ground arith

-- While a human holds the lease, no time without activity gets it reaped as idle.
pub takeover_exempts_idle :
    (l : Lease) (now : Time) (idle life : ℕ)
    → l.human_takeover ≡ true
    → should_reap l now idle life ≢ some idle_timeout
unfolding should_reap
takeover_exempts_idle l now idle life e = ground arith
