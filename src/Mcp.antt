-- ===== src/Mcp.antt =====
-- cmd/droidpool-mcp/main.go: the tools that agents call. The server's answers, running a program, and
-- the file of the local record are parameters; of a message it is kept which one it is, and what is
-- put into it. The SDK that registers the tools is not in the repository.
pub mod Tools
pub mod Recorded
pub mod Misread
pub mod Rejected
use droidpool.Prelude.{
  ℕ, ◌+◌, Bool, true, false, not, ◌&&◌, List, [], ◌∷◌, ◌++◌, Option, none, some, if◌then◌else◌, leb,
  ◌==◌, is_empty, map, Text, codes, text_eq,
}
use droidpool.Prelude.Strings.{trim_space}

-- A JSON object by its members that are strings.
abbrev pub Object : Type 0
Object = List (Text × Text)

-- An element of a list in an answer, with its one member that is a truth value.
pub record Item : Type 0 where
  pub strings : Object
  pub flag : Bool

-- An answer of the server: its status and text, and what the JSON has: the strings, the object
-- `identity`, the list and a truth value.
pub record Reply : Type 0 where
  pub status : ℕ
  pub raw : Text
  pub strings : Object
  pub identity : Option Object
  pub items : List Item
  pub flag : Bool

pub data Act : Type 0 where
  http : Text → Text → List (Text × Text) → Act
  runs : Text → List Text → List (Text × Text) → Act

-- All is told by what was done so far, the newest first: the server's answer or the error's text,
-- and whether a program ends well and what it prints.
pub record Outside : Type 0 where
  pub reply : List Act → Option Reply
  pub lost : List Act → Text
  pub ends_well : List Act → Bool
  pub prints : List Act → Text

-- ASCII letters in lower case.
abbrev pub lower : ℕ → ℕ
lower c = if leb b'A' c && leb c b'Z' then c + 32 else c

-- Whether encoding/json takes a member for a field of this name.
unfoldable pub same_name : Text → Text → Bool
unfolding text_eq
same_name key name = text_eq (map lower key) (map lower name)

abbrev pub last_or : Option Text → Text → Option Text
last_or none v = some v
last_or (some w) v = some w

-- The last member that is taken for a field of this name.
unfoldable pub member : Text → Object → Option Text
unfolding same_name
member name [] = none
member name ((k, v) ∷ o) =
    let rest = member name o in if same_name k name then last_or rest v else rest

abbrev or_empty : Option Text → Text
or_empty none = []
or_empty (some v) = v

unfoldable pub decode : Text → Object → Text
unfolding member
decode name o = or_empty (member name o)

-- The messages of the tools.
pub data Message : Type 0 where
  exhausted under_pressure bad_token : Message
  reason : Text → Text → Message
  plain_reason : Text → Message
  status_code : ℕ → Text → Message
  lost_connection : Text → Message
  claimed : Text → Text → Text → Text → Bool → Message
  gone returned beat : Message
  taken_over : Text → Message
  valid : Text → Text → Message
  no_such_lease no_cli : Message
  not_recorded output : Text → Message
  listing : List (Text × Text × Text × Text) → Bool → Message
  no_device no_model : Message
  identified : Option Object → Bool → Message
  no_location : Message
  located : Text → Message

pub data Result : Type 0 where
  text fail : Message → Result

-- errText
unfoldable pub err_text : Reply → Message
unfolding decode trim_space
err_text r =
    let message = decode (codes "Message") r.strings in
    if r.status == 409
    then exhausted
    else if r.status == 503
    then under_pressure
    else if r.status == 401
    then bad_token
    else if not (is_empty message)
    then reason (decode (codes "Error") r.strings) message
    else status_code r.status (trim_space r.raw)

-- devErr
unfoldable pub dev_err : Reply → Message
unfolding err_text decode
dev_err r =
    let message = decode (codes "Message") r.strings in
    if is_empty message then err_text r else plain_reason message
