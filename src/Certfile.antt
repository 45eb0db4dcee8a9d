-- ===== src/Certfile.antt =====
-- internal/certfile/certfile.go: the certificate that is served while its file is replaced now and
-- then. What the file system and crypto/tls answer, and the clock, are arguments.
pub mod Served
use droidpool.Prelude.{
  ℕ, ◌+◌, ◌*◌, ◌^◌, Bool, true, false, List, [], ◌∷◌, Option, none, some, if◌then◌else◌, ltb, ◌==◌,
}

-- The certificates are of any type. `every` of 0 stands for 30 seconds.
pub record Loader (C : Type 0) : Type 0 where
  pub every : ℕ
  pub cert : C
  pub mtime : ℕ
  pub checked_at : ℕ

-- The certificate file at one moment: the time of its last change, if it is there, and what loading
-- it gives, with the time of change that was read before it.
pub record Files (C : Type 0) : Type 0 where
  pub changed : Option ℕ
  pub pair : Option (C × ℕ)

abbrev pub check_every : ℕ → ℕ
check_every every = if every == 0 then 30 * 10 ^ 9 else every

abbrev started : {C : Type 0} → ℕ → ℕ → Option (C × ℕ) → Option (Loader C)
started every now none = none
started every now (some (c, m)) =
    some (record { every = every; cert = c; mtime = m; checked_at = now })

unfoldable pub new : {C : Type 0} → ℕ → ℕ → Files C → Option (Loader C)
new every now f = started every now f.pair

abbrev pub take_pair : {C : Type 0} → Option (C × ℕ) → Loader C → Loader C
take_pair none l = l
take_pair (some (c, m)) l = record l { cert = c; mtime = m }

abbrev pub if_changed : {C : Type 0} → Option ℕ → Option (C × ℕ) → Loader C → Loader C
if_changed none p l = l
if_changed (some t) p l = if t == l.mtime then l else take_pair p l

-- The clock is read twice, as `now` and `later`; the loader after it has the certificate returned.
unfoldable pub current : {C : Type 0} → ℕ → ℕ → Files C → Loader C → Loader C
current now later f l =
    if ltb now (l.checked_at + check_every l.every)
    then l
    else if_changed f.changed f.pair (record l { checked_at = later })

-- Handshakes, the first one first.
unfoldable pub handshakes : {C : Type 0} → List (ℕ × ℕ × Files C) → Loader C → Loader C
unfolding current
handshakes [] l = l
handshakes ((now, later, f) ∷ hs) l = handshakes hs (current now later f l)
