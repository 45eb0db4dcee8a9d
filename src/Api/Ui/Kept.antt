-- ===== src/Api/Ui/Kept.antt =====
-- Which agents' sessions internal/api/ui.go keeps after a request.
use droidpool.Prelude.{
  ◌≡◌, refl, sym, ◌∙◌, ◌⊎◌, inl, inr, false, List, [], ◌∷◌, none, some, arith, Text, codes, text_eq,
  text_eq_iff, text_eq_refl, is_empty, Bool-cases, Option-cases, if◌then◌else◌,
}
use droidpool.Exec.{Result, ok, err, after}
use droidpool.Pool.Lease.{Device}
use droidpool.Api.Urls.{has_prefix}
use droidpool.Uiagent.{unless_error, Session, Log, Agent, start, dump, request}
use droidpool.Api.Ui.{
  UiSessions, UiConfig, session_of, without, UiAnswer, bad_agent, xml, stored, options_for, get,
  drop, dumped, with_session, handle_ui_dump,
}

session_of-without :
    (id j : Text) (es : List (Text × Session))
    → session_of j (without id es) ≡ (if text_eq id j then none else session_of j es)
unfolding session_of without
session_of-without id j [] = ground arith
session_of-without id j ((d, s) ∷ es) =
    ground (arith, session_of-without id j es, text_eq_iff d id, text_eq_iff d j, text_eq_iff id j)

-- A view is answered and the device's session is kept, or the agent failed and none is kept.
abbrev pub Settles : Text → UiAnswer × UiSessions → Type 0
Settles id x =
    ((out : Text) × (x.0 ≡ xml out)
      × (has_prefix (codes "ERR ") out ≡ false)
      × ((s : Session) × (session_of id x.1.live ≡ some s)))
    ⊎ (x.0 ≡ bad_agent) × (session_of id x.1.live ≡ none)

module _ (a : Agent) (id other : Text) (apart : text_eq id other ≡ false) where
  drop-Settles :
      (u : UiSessions)
      → (session_of id (drop a id u).live ≡ none)
        × (session_of other (drop a id u).live ≡ session_of other u.live)
  unfolding drop
  drop-Settles u = (
    session_of-without id id u.live ∙ rw (text_eq_refl id) refl,
    session_of-without id other u.live ∙ rw apart refl,
  )

  plain-after :
      (x : Result Text × Log) (log : Log) (out : Text)
      → after (unless_error a) x ≡ (ok out, log)
      → has_prefix (codes "ERR ") out ≡ false
  plain-after (err e, t) log out h = absurd (ground (arith, h))
  plain-after (ok o, t) log out h = elim (Bool-cases (has_prefix (codes "ERR ") o)) [
    | inl failed ↦ absurd (ground (arith, h, failed))
    | inr plain ↦ let same : o ≡ out = ground (arith, h, plain) in rw (sym same) plain
  ]

  dump-plain :
      (s : Session) (log log' : Log) (out : Text)
      → dump a s log ≡ (ok out, log')
      → has_prefix (codes "ERR ") out ≡ false
  unfolding dump
  dump-plain s log log' out h = plain-after (request a s.options (codes "DUMP") log) log' out h

  dumped-Settles :
      (u : UiSessions) (s : Session) (x : Result Text × Log)
      → session_of id u.live ≡ some s
      → ((out : Text) (log : Log) → x ≡ (ok out, log) → has_prefix (codes "ERR ") out ≡ false)
      → Settles id (dumped a id u x)
        × (session_of other (dumped a id u x).1.live ≡ session_of other u.live)
  dumped-Settles u s (ok out, log) held plain =
      (inl (out, refl, plain out log refl, (s, held)), refl)
  dumped-Settles u s (err e, log) held plain =
      let (gone, others) = drop-Settles (record u { log = log }) in (inr (refl, gone), others)

  answered-Settles :
      (u : UiSessions) (s : Session)
      → session_of id u.live ≡ some s
      → let x = with_session a id (ok s, u) in
        Settles id x × (session_of other x.1.live ≡ session_of other u.live)
  answered-Settles u s held =
      dumped-Settles u s (dump a s u.log) held (λ out log h. dump-plain s u.log log out h)

  stored-Settles :
      (u : UiSessions) (x : Result Session × Log)
      → session_of id u.live ≡ none
      → let y = with_session a id (stored a id u x) in
        Settles id y × (session_of other y.1.live ≡ session_of other u.live)
  stored-Settles u (err e, log) new = (inr (refl, new), refl)
  stored-Settles u (ok s, log) new =
      let v : UiSessions = record { live = (id, s) ∷ u.live; log = log } in
      let (settled, others) =
        answered-Settles v s (unfold session_of in rw (text_eq_refl id) refl) in
      (settled, others ∙ (unfold session_of in rw apart refl))

  -- With an agent configured, a request for the view of a device that was read is answered either
  -- by a view that does not start with ERR and a space, and the device's session is kept, or as a
  -- bad gateway, and no session of the device is kept. The other devices' sessions are as before.
  pub handle_ui_dump-Settles :
      (cfg : UiConfig) (d : Device) (u : UiSessions)
      → is_empty cfg.dex_path ≡ false
      → let x = handle_ui_dump a cfg id (ok d) u in
        Settles id x × (session_of other x.1.live ≡ session_of other u.live)
  unfolding handle_ui_dump get
  handle_ui_dump-Settles cfg d u given = elim (Option-cases (session_of id u.live)) [
    | inl new ↦
        rw (given, new) (stored-Settles u (start a (options_for a cfg id d.adb_addr) u.log) new)
    | inr (s, held) ↦ rw (given, held) (answered-Settles u s held)
  ]
