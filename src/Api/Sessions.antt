-- ===== src/Api/Sessions.antt =====
-- internal/api/h264.go: the table of live sessions, one to a device. The map is a list of entries
-- with distinct ids; a controller is known by a number; `cancelled` lists the generations whose
-- `cancel` has been called, newest first.
pub mod Takeover
use droidpool.Prelude.{
  ℕ, suc, ◌+◌, ◌-◌, ◌%◌, ◌^◌, ◌≡◌, Bool, true, false, not, ◌&&◌, List, [], ◌∷◌, ◌++◌, Option, none,
  some, Text, text_eq, find?, map, length, leb, ltb, ◌==◌, if◌then◌else◌,
}

pub record LiveSession : Type 0 where
  pub id : Text
  pub gen : ℕ
  pub ctrl : Option ℕ

-- `next` is an int32, as its bit pattern.
pub record Sessions : Type 0 where
  pub live : List LiveSession
  pub next : ℕ
  pub cancelled : List ℕ

abbrev pub empty : Sessions
empty = record { live = []; next = 0; cancelled = [] }

abbrev pub is_of : Text → LiveSession → Bool
is_of id e = text_eq e.id id

-- h.next++
unfoldable pub next_after : ℕ → ℕ
next_after n = (n + 1) % 2 ^ 32

-- uint64(h.next): the sign is carried along.
unfoldable pub generation : ℕ → ℕ
generation n = if ltb n (2 ^ 31) then n else n + 2 ^ 64 - 2 ^ 32

unfoldable pub delete : Text → List LiveSession → List LiveSession
delete id [] = []
delete id (e ∷ es) = let rest = delete id es in if is_of id e then rest else e ∷ rest

-- h.live[id] = &liveSession{cancel: cancel, gen: gen}
unfoldable pub put : Text → ℕ → List LiveSession → List LiveSession
put id gen es = record { id = id; gen = gen; ctrl = none } ∷ delete id es

-- The gen and the port of the new session.
abbrev pub register : Text → ℕ → Sessions → Option (ℕ × ℕ) × Sessions
register id port_base h =
    let n = next_after h.next in
    let gen = generation n in
    (some (gen, port_base + gen % 64), record h { live = put id gen h.live; next = n })

abbrev pub acquire_with : Text → ℕ → ℕ → Sessions → Option LiveSession → Option (ℕ × ℕ) × Sessions
acquire_with id port_base max_devices h (some old) =
    register id port_base (record h { cancelled = old.gen ∷ h.cancelled })
acquire_with id port_base max_devices h none =
    if ltb 0 max_devices && leb max_devices (length h.live)
    then (none, h)
    else register id port_base h

unfoldable pub acquire_capped : Text → ℕ → ℕ → Sessions → Option (ℕ × ℕ) × Sessions
acquire_capped id port_base max_devices h =
    acquire_with id port_base max_devices h (find? (is_of id) h.live)

unfoldable pub acquire : Text → ℕ → Sessions → Option (ℕ × ℕ) × Sessions
acquire id port_base h = acquire_capped id port_base 0 h

abbrev pub is_gen : Text → ℕ → LiveSession → Bool
is_gen id gen e = is_of id e && e.gen == gen

unfoldable pub set_each : Text → ℕ → ℕ → List LiveSession → List LiveSession
set_each id gen c [] = []
set_each id gen c (e ∷ es) =
    (if is_gen id gen e then record e { ctrl = some c } else e) ∷ set_each id gen c es

unfoldable pub set_controller : Text → ℕ → ℕ → Sessions → Sessions
set_controller id gen c h = record h { live = set_each id gen c h.live }

abbrev pub ctrl_of : Option LiveSession → Option ℕ
ctrl_of none = none
ctrl_of (some e) = e.ctrl

unfoldable pub controller : Text → Sessions → Option ℕ
controller id h = ctrl_of (find? (is_of id) h.live)

unfoldable pub close_all : Sessions → ℕ × Sessions
close_all h = (length h.live, record h { cancelled = map (λ e. e.gen) h.live ++ h.cancelled })

abbrev pub owned_by : ℕ → Option LiveSession → Bool
owned_by gen none = false
owned_by gen (some e) = e.gen == gen

unfoldable pub release : Text → ℕ → Sessions → Sessions
release id gen h =
    if owned_by gen (find? (is_of id) h.live) then record h { live = delete id h.live } else h
