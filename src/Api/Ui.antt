-- ===== src/Api/Ui.antt =====
-- internal/api/ui.go: the view of a device over its agent, and the sessions that are kept. The
-- deadline of a request is the agent's context.
pub mod Kept
use droidpool.Prelude.{
  ℕ, ◌+◌, Bool, true, false, List, [], ◌∷◌, ◌++◌, Option, none, some, if◌then◌else◌, ◌==◌, is_empty,
  length, Text, text_eq,
}
use droidpool.Exec.{Result, ok, err}
use droidpool.Pool.Lease.{Device}
use droidpool.Node.Names.{trailing_number}
use droidpool.Uiagent.{Options, Session, Log, Agent, start, dump, close}

-- The sessions by device, and what was done on the devices.
pub record UiSessions : Type 0 where
  pub live : List (Text × Session)
  pub log : Log

pub record UiConfig : Type 0 where
  pub dex_path : Text
  pub port_base : ℕ

unfoldable pub session_of : Text → List (Text × Session) → Option Session
unfolding text_eq
session_of id [] = none
session_of id ((d, s) ∷ es) = let rest = session_of id es in if text_eq d id then some s else rest

unfoldable pub without : Text → List (Text × Session) → List (Text × Session)
unfolding text_eq
without id [] = []
without id ((d, s) ∷ es) = let rest = without id es in if text_eq d id then rest else (d, s) ∷ rest

-- trailingNumber of this file is that of internal/node/node.go.
unfoldable pub ui_port_for : UiConfig → Text → ℕ
unfolding trailing_number
ui_port_for cfg id = (if cfg.port_base == 0 then 27400 else cfg.port_base) + trailing_number id

pub data UiAnswer : Type 0 where
  unavailable missing bad_agent : UiAnswer
  xml : Text → UiAnswer

module _ (a : Agent) where
  abbrev stored : Text → UiSessions → Result Session × Log → Result Session × UiSessions
  stored id u (ok s, log) = (ok s, record { live = (id, s) ∷ u.live; log = log })
  stored id u (err e, log) = (err e, record u { log = log })

  abbrev start_for : Text → Options → UiSessions → Option Session → Result Session × UiSessions
  start_for id opt u (some s) = (ok s, u)
  start_for id opt u none = stored id u (start a opt u.log)

  -- The options of a session that is started.
  abbrev pub options_for : UiConfig → Text → Text → Options
  options_for cfg id serial = record {
    serial = serial;
    dex_path = cfg.dex_path;
    local_port = ui_port_for cfg id;
  }

  unfoldable pub get : UiConfig → Text → Text → UiSessions → Result Session × UiSessions
  unfolding session_of ui_port_for start
  get cfg id serial u = start_for id (options_for cfg id serial) u (session_of id u.live)

  abbrev closed : Option Session → Log → Log
  closed none log = log
  closed (some s) log = (close a s log).1

  unfoldable pub drop : Text → UiSessions → UiSessions
  unfolding session_of without close
  drop id u = record { live = without id u.live; log = closed (session_of id u.live) u.log }

  unfoldable pub close_each : List (Text × Session) → Log → Log
  unfolding close
  close_each [] log = log
  close_each ((d, s) ∷ es) log = close_each es (close a s log).1

  unfoldable pub close_all : UiSessions → ℕ × UiSessions
  unfolding close_each
  close_all u = (length u.live, record { live = []; log = close_each u.live u.log })

  abbrev pub dumped : Text → UiSessions → Result Text × Log → UiAnswer × UiSessions
  dumped id u (ok out, log) = (xml out, record u { log = log })
  dumped id u (err e, log) = (bad_agent, drop id (record u { log = log }))

  abbrev pub with_session : Text → Result Session × UiSessions → UiAnswer × UiSessions
  with_session id (ok s, u) = dumped id u (dump a s u.log)
  with_session id (err e, u) = (bad_agent, u)

  unfoldable pub handle_ui_dump :
      UiConfig → Text → Result Device → UiSessions → UiAnswer × UiSessions
  unfolding get drop dump
  handle_ui_dump cfg id (err e) u = (if is_empty cfg.dex_path then unavailable else missing, u)
  handle_ui_dump cfg id (ok d) u =
      if is_empty cfg.dex_path then (unavailable, u) else with_session id (get cfg id d.adb_addr u)
