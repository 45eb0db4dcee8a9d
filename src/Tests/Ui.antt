-- ===== src/Tests/Ui.antt =====
-- An agent that answers from its second request on.
use droidpool.Prelude.{
  ℕ, ◌+◌, ◌≤◌, ◌≡◌, refl, Bool, true, false, [], ◌∷◌, Option, none, some, codes, text_eq, Text,
  ◌++◌, List, arith, if◌then◌else◌, ltb, length,
}
use droidpool.Exec.{ok}
use droidpool.Exec.{err, too_long}
use droidpool.Uiagent.{Options, Event, runs, asks, slept, Log, Agent, start, read_limited_line}
use droidpool.Uiagent.Answered.{IsClock, Tells, IsAnswered, start-Answers}
use droidpool.Uiagent.Lines.{line_of, joined, read_limited_line-joined}
use droidpool.Api.Ui.{UiSessions, UiConfig, session_of, handle_ui_dump}
use droidpool.Api.Ui.Kept.{Settles, handle_ui_dump-Settles}
use droidpool.Tests.Wall.{device}

abbrev time_of : Log → ℕ
time_of [] = 0
time_of (slept d ∷ log) = time_of log + d
time_of (e ∷ log) = time_of log

abbrev answer : Log → Option (List (Text × Bool))
answer [] = none
answer (e ∷ []) = none
answer (e ∷ f ∷ []) = none
answer (e ∷ f ∷ g ∷ log) = some ((codes "PO", true) ∷ (codes "NG", false) ∷ [])

abbrev agent : Agent
agent = record { succeeds = λ l. true; chunks = answer; alive = λ l. true; clock = time_of }

agent-passes : (e : Event) (log : Log) → time_of log ≤ time_of (e ∷ log)
agent-passes (slept d) log = omega arith
agent-passes (runs s args) log = omega arith
agent-passes (asks p c) log = omega arith

agent-IsClock : IsClock agent
agent-IsClock = record { passes = agent-passes; sleeps = λ d log. omega arith }

abbrev options : Options
options = record { serial = codes "h:1"; dex_path = codes "a.dex"; local_port = 27401 }

start-Answers_example : Tells (IsAnswered agent options) (start agent options [])
start-Answers_example = start-Answers agent options agent-IsClock []

read_limited_line-joined_example :
    read_limited_line 4 [] (line_of (codes "PO" ∷ []) (codes "NG") ++ []) ≡ (
      if ltb 4 (length (joined (codes "PO" ∷ []) (codes "NG")))
      then err too_long
      else ok (joined (codes "PO" ∷ []) (codes "NG")))
read_limited_line-joined_example = read_limited_line-joined 4 (codes "PO" ∷ []) (codes "NG") []

abbrev config : UiConfig
config = record { dex_path = codes "a.dex"; port_base = 0 }

abbrev nobody : UiSessions
nobody = record { live = []; log = [] }

handle_ui_dump-Settles_example :
    Settles (codes "n-1") (handle_ui_dump agent config (codes "n-1") (ok device) nobody)
    × (session_of
          (codes "n-2")
          (handle_ui_dump agent config (codes "n-1") (ok device) nobody).1.live
        ≡ session_of (codes "n-2") [])
unfolding text_eq
handle_ui_dump-Settles_example =
    handle_ui_dump-Settles agent (codes "n-1") (codes "n-2") refl config device nobody refl
