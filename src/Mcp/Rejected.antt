-- ===== src/Mcp/Rejected.antt =====
-- What becomes of a run with a back end's host that cmd/droidpool-mcp/main.go hands to the client,
-- cmd/droidpool/main.go.
use droidpool.Prelude.{
  ◌≡◌, refl, inl, inr, false, List, [], ◌∷◌, Text, codes, text_eq, is_empty, Bool-cases,
}
use droidpool.Manager.Index.{strip_prefix}
use droidpool.Api.Urls.{cut}
use droidpool.Client.{call, Shell, absent, garbled, holds, Outside, Run}
use droidpool.Client.Commands.{touch_if_leased, touch_record, heartbeat}
use droidpool.Client.Flags.{classify, kind_of, parse}
use droidpool.Client.Run.{Machine, cmd_run}
use droidpool.Client.Main.{Command, Settings, command_of, dispatch, main}
use droidpool.Mcp.Tools.{run_args}

cmd_run-host :
    (o : Outside) (m : Machine) (apk host : Text) (rest : List Text) (s : Shell)
    → cmd_run o m (codes "--apk" ∷ apk ∷ codes "--host" ∷ host ∷ rest) s ≡ (inr 2, s)
unfolding cmd_run parse classify kind_of cut strip_prefix text_eq
cmd_run-host o m apk host rest s = refl

touch_if_leased-done :
    (o : Outside) (s : Shell) → touch_if_leased o s ≡ (inl tt, (touch_if_leased o s).1)
unfolding touch_if_leased heartbeat call
touch_if_leased-done o s =
    elim s.file as (λ f. touch_record o f s ≡ (inl tt, (touch_record o f s).1)) [
      | absent ↦ refl
      | garbled ↦ refl
      | holds st ↦ elim (Bool-cases (is_empty st.lease_id)) [
        | inl none_held ↦ rw none_held refl
        | inr held ↦ rw held refl
      ]
    ]

-- With an address and a token set, the client that is run with the arguments that the tool gives
-- it for a host that is not empty ends with status 2, and has done nothing but its heartbeat.
pub main-run_args :
    (o : Outside) (m : Machine) (commands : Command → List Text → Run (Unit {0})) (e : Settings)
    (apk host : Text) (s : Shell)
    → ((args : List Text) → commands Command.run args ≡ cmd_run o m args)
    → is_empty e.base ≡ false
    → is_empty e.token ≡ false
    → is_empty host ≡ false
    → main o commands e (run_args apk host) s ≡ (inr 2, (touch_if_leased o s).1)
unfolding main run_args dispatch command_of text_eq
main-run_args o m commands e apk host s is_run base token named =
    rw
      (
        named,
        base,
        token,
        touch_if_leased-done o s,
        is_run (codes "--apk" ∷ apk ∷ codes "--host" ∷ host ∷ []),
      )
      (cmd_run-host o m apk host [] (touch_if_leased o s).1)
