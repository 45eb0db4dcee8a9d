-- ===== src/Client.antt =====
-- cmd/droidpool/main.go and internal/localstate/localstate.go: the command line client, as far as it
-- changes its local record, calls the server or runs adb. What it prints is left out. The server's
-- answers, decoded, and adb's are parameters.
pub mod Commands
pub mod Device
pub mod Released
pub mod Served
pub mod Powered
pub mod Flags
pub mod Run
pub mod Main
use droidpool.Prelude.{
  ℕ, ◌+◌, Bool, true, false, not, ◌&&◌, ◌||◌, List, [], ◌∷◌, ◌++◌, Option, none, some, ◌⊎◌, inl,
  inr, if◌then◌else◌, leb, ltb, ◌==◌, is_empty, Text, codes, text_eq,
}
use droidpool.Prelude.Strings.{trim_space}
use droidpool.Pool.Identity.{is_alnum}
use droidpool.Manager.Index.{strip_prefix}
use droidpool.Api.Urls.{has_prefix}

pub record LeaseState : Type 0 where
  pub lease_id : Text
  pub device_id : Text
  pub adb_addr : Text

-- The file of the local record: not there, not readable as JSON, or with a record.
pub data File : Type 0 where
  absent garbled : File
  holds : LeaseState → File

pub data Act : Type 0 where
  http : Text → Text → List (Text × Text) → Act
  adb : List Text → Act
  waits : ℕ → Act
  -- a temporary file: its content, or that it is removed
  temp_file : Text → Option Text → Act

-- What the command has done, the newest first, and the local record.
pub record Shell : Type 0 where
  pub file : File
  pub acts : List Act

-- A lease of the server's list.
pub record Listed : Type 0 where
  pub id : Text
  pub human_takeover : Bool

-- The fields that the commands decode; those that are not sent have their zero values.
pub record Body : Type 0 where
  pub lease : LeaseState
  pub reused : Bool
  pub leases : List Listed
  pub rebuilt : Bool

-- No answer, with the error's text; or a status, the fields Error and Message and the text of the
-- answer, and its body.
pub data Response : Type 0 where
  lost : Text → Response
  answered : ℕ → Text → Text → Text → Body → Response

pub record Outside : Type 0 where
  pub response : List Act → Response
  pub adb_fails : List Act → Bool
  pub adb_output : List Act → Text
  -- os.WriteFile and os.Remove
  pub writes : List Act → Bool

-- A command goes on, or exits with a code.
abbrev pub Run : Type 0 → Type 0
Run A = Shell → (A ⊎ ℕ) × Shell

abbrev pub done : {A : Type 0} → A → Run A
done a s = (inl a, s)

abbrev pub exit : {A : Type 0} → ℕ → Run A
exit n s = (inr n, s)

abbrev pub fatal : {A : Type 0} → Run A
fatal s = exit 1 s

abbrev pub and_then : {A B : Type 0} → (A → Run B) → (A ⊎ ℕ) × Shell → (B ⊎ ℕ) × Shell
and_then f (inl a, s) = f a s
and_then f (inr n, s) = (inr n, s)

infixl 5 ◌>>=◌ ◌>>◌
abbrev pub ◌>>=◌ : {A B : Type 0} → Run A → (A → Run B) → Run B
◌>>=◌ m f s = and_then f (m s)

abbrev pub ◌>>◌ : {B : Type 0} → Run (Unit {0}) → Run B → Run B
◌>>◌ m k s = and_then (λ _. k) (m s)

abbrev zero_body : Body
zero_body = record {
  lease = record { lease_id = []; device_id = []; adb_addr = [] };
  reused = false;
  leases = [];
  rebuilt = false;
}

-- The code, the error and the body that (*client).do returns.
pub record Answer : Type 0 where
  pub code : ℕ
  pub failure : Option Text
  pub body : Body

unfoldable pub answer_of : Response → Answer
unfolding trim_space
answer_of (lost e) = record { code = 0; failure = some e; body = zero_body }
answer_of (answered code e message raw body) = record {
  code = code;
  failure =
      (if leb 400 code
        then some (e ++ (codes ": " ++ (if is_empty message then trim_space raw else message)))
        else none);
  body = body;
}

-- The session's key, made safe for a file name. A rune beyond ASCII becomes one dash: of its
-- bytes in UTF-8 all but the first are from 128 to 191.
unfoldable pub session_key : Text → Text
unfolding is_alnum
session_key [] = []
session_key (c ∷ s) =
    let rest = session_key s in
    if leb 128 c && ltb c 192
    then rest
    else (if is_alnum c || c == b'-' || c == b'_' || c == b'.' then c else b'-') ∷ rest

unfoldable pub file_name : Text → Text
unfolding session_key
file_name env =
    if is_empty (session_key env)
    then codes ".droidpool"
    else codes ".droidpool." ++ session_key env

unfoldable pub claim_worktree : Text → Text → Text
claim_worktree worktree session = if is_empty session then worktree else worktree ++ b'@' ∷ session

abbrev is_not_found : ℕ → Option Text → Bool
is_not_found code none = false
is_not_found code (some e) = (code == 404) && has_prefix (codes "not_found:") e

abbrev has_no : Option Text → Bool
has_no none = true
has_no (some e) = false

-- Whether the local record is cleared, and whether the command ends well: both are the same.
unfoldable pub release_outcome : ℕ → Option Text → Bool × Bool
unfolding strip_prefix
release_outcome code e = let settled = has_no e || is_not_found code e in (settled, settled)

abbrev state_in : File → Run LeaseState
state_in absent = fatal
state_in garbled = fatal
state_in (holds st) = done st

-- loadState, where every caller ends on its error.
unfoldable pub load_state : Run LeaseState
load_state s = state_in s.file s

module _ (o : Outside) where
  unfoldable pub call : Text → Text → List (Text × Text) → Run Answer
  unfolding answer_of
  call method path body s =
      let acts = http method path body ∷ s.acts in
      (inl (answer_of (o.response acts)), record s { acts = acts })

  -- Whether adb succeeded, and its output.
  unfoldable pub adb_dev : List Text → Run (Bool × Text)
  adb_dev args = do
    st ← load_state
    λ s.
        let acts = adb (codes "-s" ∷ st.adb_addr ∷ args) ∷ s.acts in
        (inl (not (o.adb_fails acts), o.adb_output acts), record s { acts = acts })

  unfoldable pub wait : ℕ → Run (Unit {0})
  wait d s = (inl tt, record s { acts = waits d ∷ s.acts })
