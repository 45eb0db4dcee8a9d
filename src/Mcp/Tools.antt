-- ===== src/Mcp/Tools.antt =====
-- cmd/droidpool-mcp/main.go: the tools.
use droidpool.Prelude.{
  Bool, true, false, not, ◌&&◌, List, [], ◌∷◌, ◌++◌, Option, none, some, if◌then◌else◌, leb, ◌==◌,
  is_empty, map, Text, codes, text_eq,
}
use droidpool.Prelude.Int.{ℤ}
use droidpool.Adb.{itoa}
use droidpool.Mcp.{
  Item, Reply, Act, http, runs, Outside, decode, Message, lost_connection, claimed, gone, returned,
  beat, taken_over, valid, no_such_lease, no_cli, not_recorded, output, listing, no_device,
  no_model, identified, no_location, located, Result, text, fail, err_text, dev_err,
}

-- The members of the local record: strings, and values of other kinds.
pub data Value : Type 0 where
  string : Text → Value
  other : Value

abbrev pub Rec : Type 0
Rec = List (Text × Value)

-- The local record as a JSON object, if there is one that can be read, and what was done.
pub record Shell : Type 0 where
  pub file : Option Rec
  pub acts : List Act

abbrev pub Tool : Type 0
Tool = Shell → Result × Shell

abbrev pub say : Message → Tool
say m s = (text m, s)

abbrev pub refuse : Message → Tool
refuse m s = (fail m, s)

abbrev as_string : Value → Text
as_string (string v) = v
as_string other = []

-- rec[key], if that is a string
unfoldable pub string_at : Text → Rec → Text
unfolding text_eq
string_at key [] = []
string_at key ((k, v) ∷ r) =
    let rest = string_at key r in if text_eq k key then as_string v else rest

-- rec[key] = v
unfoldable pub put : Text → Text → Rec → Rec
unfolding text_eq
put key v [] = (key, string v) ∷ []
put key v ((k, w) ∷ r) =
    let rest = put key v r in if text_eq k key then (key, string v) ∷ r else (k, w) ∷ rest

abbrev pub or_no_record : Option Rec → Rec
or_no_record none = []
or_no_record (some r) = r

abbrev pub addr_key : Text
addr_key = codes "adb_addr"

-- The file after os.WriteFile: what was written, or what an error left in it.
abbrev written_or_left : Option (Option Rec) → Rec → Bool × Option Rec
written_or_left none r = (true, some r)
written_or_left (some left) r = (false, left)

-- Whether it is written, and the file then. If os.WriteFile fails, `fails` is what it leaves.
unfoldable pub write_adb_addr : Option (Option Rec) → Text → Option Rec → Bool × Option Rec
unfolding string_at put
write_adb_addr fails addr file =
    let r = or_no_record file in
    let old = string_at addr_key r in
    if not (is_empty old) && not (text_eq old addr)
    then (false, file)
    else written_or_left fails (put addr_key addr r)

pub record ClaimIn : Type 0 where
  pub worktree : Text
  pub branch : Text
  pub head_sha : Text
  pub ttl_min : ℤ

-- The fields are ID, DeviceID, ExpiresAt and HumanNote, without tags.
unfoldable pub told_of : Text → List Item → Message
unfolding decode text_eq
told_of id [] = no_such_lease
told_of id (l ∷ ls) =
    let rest = told_of id ls in
    if text_eq (decode (codes "ID") l.strings) id
    then (if l.flag
        then taken_over (decode (codes "HumanNote") l.strings)
        else valid (decode (codes "DeviceID") l.strings) (decode (codes "ExpiresAt") l.strings))
    else rest

unfoldable pub run_args : Text → Text → List Text
run_args apk edge_host =
    codes "run"
    ∷ codes "--apk"
    ∷ apk
    ∷ (if is_empty edge_host then [] else codes "--host" ∷ edge_host ∷ [])

abbrev run_env : Text → List (Text × Text)
run_env edge_host = if is_empty edge_host then [] else (codes "DROIDPOOL_EDGE_HOST", edge_host) ∷ []

module _ (o : Outside) where
  abbrev pub with_reply :
      Option Reply → (Text → Tool) → (Reply → Tool) → List Act → Shell → Result × Shell
  with_reply none lost k acts s = lost (o.lost acts) (record s { acts = acts })
  with_reply (some r) lost k acts s = k r (record s { acts = acts })

  -- (*client).do, what follows an error, and what follows an answer
  unfoldable pub ask : Text → Text → List (Text × Text) → (Text → Tool) → (Reply → Tool) → Tool
  ask method path body lost k s =
      let acts = http method path body ∷ s.acts in with_reply (o.reply acts) lost k acts s

  abbrev pub unless_refused : (Reply → Message) → (Reply → Tool) → Reply → Tool
  unless_refused explain k r = if leb 400 r.status then refuse (explain r) else k r

  abbrev pub failing : Text → Tool
  failing e = refuse (lost_connection e)

  abbrev connect : Text → Tool → Tool
  connect addr k s =
      k (record s { acts = runs (codes "adb") (codes "connect" ∷ addr ∷ []) [] ∷ s.acts })

  unfoldable pub claim : Text → Text → Text → ClaimIn → Tool
  unfolding ask err_text decode
  claim user host dir i =
      ask (codes "POST") (codes "/api/leases")
        ((codes "owner", user ++ b'@' ∷ host)
          ∷ (codes "host", host)
          ∷ (codes "worktree", (if is_empty i.worktree then dir else i.worktree))
          ∷ (codes "branch", i.branch)
          ∷ (codes "head_sha", i.head_sha)
          ∷ (codes "ttl_min", itoa i.ttl_min)
          ∷ [])
        failing
        (unless_refused err_text λ r.
          let addr = decode (codes "adb_addr") r.strings in
          connect addr (
            say (
              claimed (decode (codes "device_id") r.strings) addr
                (decode (codes "lease_id") r.strings) (decode (codes "expires_at") r.strings)
                r.flag)))

  abbrev pub after_release : Reply → Tool
  after_release r =
      if r.status == 404 then say gone else unless_refused err_text (λ x. say returned) r

  unfoldable pub release : Text → Tool
  unfolding ask err_text
  release id = ask (codes "DELETE") (codes "/api/leases/" ++ id) [] failing after_release

  unfoldable pub heartbeat : Text → Tool
  unfolding ask err_text
  heartbeat id =
      ask (codes "POST") (codes "/api/leases/" ++ (id ++ codes "/heartbeat")) [] failing
        (unless_refused err_text (λ r. say beat))

  unfoldable pub status : Text → Tool
  unfolding ask err_text told_of
  status id =
      ask (codes "GET") (codes "/api/leases") [] failing
        (unless_refused err_text (λ r. say (told_of id r.items)))

  abbrev run_cli : Text → List Text → List (Text × Text) → Tool
  run_cli cli args env s =
      let acts = runs cli args env ∷ s.acts in
      let s' = record s { acts = acts } in
      if o.ends_well acts
      then say (output (o.prints acts)) s'
      else refuse (output (o.prints acts)) s'

  abbrev after_written : Text → Text → Text → Bool × Option Rec → Tool
  after_written cli apk edge_host (true, file) s =
      run_cli cli (run_args apk edge_host) (run_env edge_host) (record s { file = file })
  after_written cli apk edge_host (false, file) s =
      refuse (not_recorded (string_at addr_key (or_no_record s.file))) (record s { file = file })

  -- The path of the client's program, if it is found.
  unfoldable pub run : Option Text → Option (Option Rec) → Text → Text → Text → Tool
  unfolding write_adb_addr run_args
  run none fails addr apk edge_host s = refuse no_cli s
  run (some cli) fails addr apk edge_host s =
      after_written cli apk edge_host (write_adb_addr fails addr s.file) s

  abbrev row : Item → Text × Text × Text × Text
  row d = (
    decode (codes "ID") d.strings,
    decode (codes "State") d.strings,
    decode (codes "Worktree") d.strings,
    decode (codes "Owner") d.strings,
  )

  unfoldable pub devices : Tool
  unfolding ask err_text decode
  devices =
      ask (codes "GET") (codes "/api/wall") [] failing
        (unless_refused err_text (λ r. say (listing (map row r.items) r.flag)))

  abbrev after_identity : Text → Reply → Tool
  after_identity addr r =
      if r.flag && not (is_empty addr)
      then connect addr (say (identified r.identity r.flag))
      else say (identified r.identity r.flag)

  -- `others` are brand, manufacturer, device, name and serial.
  unfoldable pub identity : Text → Bool → Text → List (Text × Text) → Text → Tool
  unfolding ask dev_err
  identity device_id reset model others addr =
      if is_empty device_id
      then refuse no_device
      else if not reset && is_empty model
      then refuse no_model
      else ask (codes "PUT") (codes "/api/devices/" ++ (device_id ++ codes "/identity"))
          (if reset then [] else (codes "model", model) ∷ others) failing
          (unless_refused dev_err (after_identity addr))

  abbrev told_location : Text → Message
  told_location l = if is_empty l then no_location else located l

  unfoldable pub location : Text → Text → Tool
  unfolding ask dev_err decode
  location device_id l =
      if is_empty device_id
      then refuse no_device
      else ask (codes "PUT") (codes "/api/devices/" ++ (device_id ++ codes "/location"))
          ((codes "location", l) ∷ []) failing
          (unless_refused dev_err
            (λ r. say (told_location (decode (codes "mock_location") r.strings))))
