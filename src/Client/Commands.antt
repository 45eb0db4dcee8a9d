-- ===== src/Client/Commands.antt =====
-- cmd/droidpool/main.go: the commands that work on the lease itself.
use droidpool.Prelude.{
  ℕ, zero, suc, ◌*◌, Bool, false, not, ◌&&◌, List, [], ◌∷◌, ◌++◌, Option, none, some, inl, inr,
  if◌then◌else◌, ltb, is_empty, Text, codes, text_eq,
}
use droidpool.Pool.Time.{second}
use droidpool.Client.{
  LeaseState, File, absent, garbled, holds, Shell, Act, Listed, Outside, Run, done, exit, fatal,
  ◌>>=◌, ◌>>◌, Answer, claim_worktree, session_key, release_outcome, load_state, call, wait, has_no,
}

-- The local record has this lease.
unfoldable pub held_here : Text → File → Bool
unfolding text_eq
held_here id absent = false
held_here id garbled = false
held_here id (holds st) = text_eq st.lease_id id

module _ (o : Outside) where
  unfoldable pub save_state : LeaseState → Run (Unit {0})
  save_state st s = if o.writes s.acts then (inl tt, record s { file = holds st }) else (inr 1, s)

  -- _ = os.Remove(statePath())
  unfoldable pub clear_state : Run (Unit {0})
  clear_state s = (inl tt, (if o.writes s.acts then record s { file = absent } else s))

  abbrev or_fatal : Answer → Run Answer
  or_fatal a = if has_no a.failure then done a else fatal

  -- A heartbeat that fails is only reported.
  unfoldable pub heartbeat : Text → Run (Unit {0})
  unfolding call
  heartbeat id = do
    a ← call o (codes "POST") (codes "/api/leases/" ++ (id ++ codes "/heartbeat")) []
    done tt

  abbrev pub touch_record : File → Run (Unit {0})
  touch_record absent = done tt
  touch_record garbled = done tt
  touch_record (holds st) = if is_empty st.lease_id then done tt else heartbeat st.lease_id

  unfoldable pub touch_if_leased : Run (Unit {0})
  unfolding heartbeat
  touch_if_leased s = touch_record s.file s

  -- The warning about a lease that another session holds, or none.
  unfoldable pub warns : Answer → Shell → Bool
  unfolding held_here
  warns a s = a.body.reused && not (held_here a.body.lease.lease_id s.file)

  abbrev noted : Answer → Run Bool
  noted a s = (inl (warns a s), s)

  abbrev run_adb : List Text → Run (Unit {0})
  run_adb args s = (inl tt, record s { acts = Act.adb args ∷ s.acts })

  -- Whether the warning was printed. Without a worktree name there is no git repository.
  unfoldable pub cmd_claim : Text → Text → Text → Text → Text → Text → Run Bool
  unfolding call save_state warns claim_worktree session_key
  cmd_claim user host worktree session branch head = do
    if is_empty worktree then fatal else done tt
    a ← call o (codes "POST") (codes "/api/leases") (
        (codes "owner", user ++ b'@' ∷ host)
        ∷ (codes "host", host)
        ∷ (codes "worktree", claim_worktree worktree (session_key session))
        ∷ (codes "branch", branch)
        ∷ (codes "head_sha", head)
        ∷ [])
    b ← or_fatal a
    warned ← noted b
    save_state b.body.lease
    run_adb (codes "connect" ∷ b.body.lease.adb_addr ∷ [])
    done warned

  unfoldable pub find_lease : Text → List Listed → Option Listed
  unfolding text_eq
  find_lease id [] = none
  find_lease id (l ∷ ls) = if text_eq l.id id then some l else find_lease id ls

  abbrev report : Option Listed → Run (Unit {0})
  report none = fatal
  report (some l) = if l.human_takeover then exit 10 else done tt

  unfoldable pub cmd_status : Run (Unit {0})
  unfolding call find_lease
  cmd_status = do
    st ← load_state
    a ← call o (codes "GET") (codes "/api/leases") []
    b ← or_fatal a
    report (find_lease st.lease_id b.body.leases)

  -- Whether to clear the record, and whether the command ends well.
  unfoldable pub settle : Bool × Bool → Run (Unit {0})
  unfolding clear_state
  settle (clear, well) = do if clear then clear_state else done tt; if well then done tt else fatal

  unfoldable pub cmd_release : Run (Unit {0})
  unfolding call settle release_outcome
  cmd_release = do
    st ← load_state
    if is_empty st.lease_id then fatal else done tt
    a ← call o (codes "DELETE") (codes "/api/leases/" ++ st.lease_id) []
    settle (release_outcome a.code a.failure)

  -- The pause between two heartbeats: a setting that time.ParseDuration reads as a positive time.
  unfoldable pub watch_interval : (Text → Option ℕ) → Text → ℕ
  watch_interval parse_duration v =
      if is_empty v then 60 * second else or_minute (parse_duration (v ++ codes "s"))
    where
      or_minute : Option ℕ → ℕ
      or_minute none = 60 * second
      or_minute (some n) = if ltb 0 n then n else 60 * second

  -- The first rounds of the loop, which does not end.
  unfoldable pub watch_rounds : ℕ → Text → ℕ → Run (Unit {0})
  unfolding heartbeat wait
  watch_rounds zero id every = done tt
  watch_rounds (suc k) id every = do heartbeat id; wait o every; watch_rounds k id every
