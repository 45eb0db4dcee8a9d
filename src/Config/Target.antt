-- ===== src/Config/Target.antt =====
-- Which host `hostFromDockerHost` of internal/config/config.go finds in an ssh address.
use droidpool.Prelude.{
  ℕ, ◌≡◌, refl, ap, ◌∙◌, true, ◌||◌, [], ◌∷◌, ◌++◌, arith, any, if◌then◌else◌, ◌==◌, Text, codes,
}
use droidpool.Prelude.Strings.{Lacks}
use droidpool.Api.Urls.{after_last_at}
use droidpool.Api.Masked.{after_last_at-found, after_last_at-Lacks}
use droidpool.Config.{skip_users, up_to_port, host_from_docker_host}

skip_users-last :
    (rest s : Text) → skip_users rest s ≡ (if any (λ d. d == b'@') s then after_last_at s else rest)
unfolding skip_users after_last_at
skip_users-last rest [] = refl
skip_users-last rest (c ∷ s) = ground (arith, skip_users-last s s, skip_users-last rest s)

skip_users-all : (s : Text) → skip_users s s ≡ after_last_at s
skip_users-all s = ground (arith, skip_users-last s s, after_last_at-Lacks s)

-- Of a docker host with the scheme ssh, the host that is found is what follows the last @, or all
-- of it without one, up to the first colon or slash.
pub host_from_docker_host-eq :
    (s : Text) → host_from_docker_host (codes "ssh://" ++ s) ≡ up_to_port (after_last_at s)
unfolding host_from_docker_host
host_from_docker_host-eq s = rw (skip_users-all s) refl

-- A name of a host, without what separates it.
abbrev pub IsBareHost : Text → Type 0
IsBareHost host = Lacks b'@' host × Lacks b':' host × Lacks b'/' host

up_to_port-host :
    (host rest : Text) (c : ℕ)
    → Lacks b':' host
    → Lacks b'/' host
    → (c == b':' || c == b'/') ≡ true
    → (up_to_port (host ++ c ∷ rest) ≡ host) × (up_to_port host ≡ host)
unfolding up_to_port
up_to_port-host [] rest c hc hs e = (rw e refl, refl)
up_to_port-host (d ∷ host) rest c hc hs e = ground (arith, up_to_port-host host rest c)

any-append : (s t : Text) (b : ℕ) → Lacks b s → Lacks b t → Lacks b (s ++ t)
any-append [] t b hs ht = ht
any-append (c ∷ s) t b hs ht = ground (arith, any-append s t b)

-- The host is read whether a port, a path or nothing follows it, with a user before it; and a bare
-- host alone is read as itself. The host has no @, : or /, and what follows it no @.
pub host_from_docker_host-host :
    (user host port : Text)
    → IsBareHost host
    → Lacks b'@' port
    → (host_from_docker_host (codes "ssh://" ++ (user ++ b'@' ∷ (host ++ b':' ∷ port))) ≡ host)
      × (host_from_docker_host (codes "ssh://" ++ (user ++ b'@' ∷ (host ++ b'/' ∷ port))) ≡ host)
      × (host_from_docker_host (codes "ssh://" ++ (user ++ b'@' ∷ host)) ≡ host)
      × (host_from_docker_host (codes "ssh://" ++ host) ≡ host)
host_from_docker_host-host user host port (at, colon, slash) hp =
    let (by_port, alone) = up_to_port-host host port b':' colon slash refl in
    let (by_path, _) = up_to_port-host host port b'/' colon slash refl in
    let found = λ (rest : Text) (h : Lacks b'@' rest).
      host_from_docker_host-eq (user ++ b'@' ∷ rest)
      ∙ ap up_to_port (after_last_at-found user rest h) in
    (
      found (host ++ b':' ∷ port) (any-append host (b':' ∷ port) b'@' at hp) ∙ by_port,
      found (host ++ b'/' ∷ port) (any-append host (b'/' ∷ port) b'@' at hp) ∙ by_path,
      found host at ∙ alone,
      host_from_docker_host-eq host ∙ ap up_to_port (after_last_at-Lacks host at) ∙ alone,
    )
