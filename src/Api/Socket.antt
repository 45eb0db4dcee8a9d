-- ===== src/Api/Socket.antt =====
-- internal/api/ws.go: the input that the socket of a device takes. A message that is read is given as
-- it was decoded.
pub mod Lands
use droidpool.Prelude.{
  ℕ, ◌+◌, ◌-◌, ◌^◌, Bool, true, false, not, ◌&&◌, ◌||◌, List, [], ◌∷◌, ◌++◌, Option, none, some,
  if◌then◌else◌, ltb, leb, ◌==◌, is_empty, any, Text, codes, text_eq, length, take,
}
use droidpool.Prelude.Int.{ℤ, pos, negsuc}
use droidpool.Scrcpy.Control.{
  Channel, Float, nonneg, negative, touch, scroll, key_event, set_clipboard, get_clipboard, text,
}
use droidpool.Api.Wall.{Shots, invalidate}
use droidpool.Scrcpy.Swipe.{Scaled}
use droidpool.Api.Input.{
  InputRequest, InputError, bad_input_type, unknown_touch, unknown_key_action, bad_pointer,
  Injected, refuse, as_injected, inject_via_controller,
}

pub record WsInput : Type 0 where
  pub kind : Text
  pub action : Text
  pub id : ℤ
  pub x : ℤ
  pub y : ℤ
  pub pressure : Float
  pub dx : Float
  pub dy : Float
  pub x2 : ℤ
  pub y2 : ℤ
  pub ms : ℤ
  pub key : Text
  pub text : Text
  pub code : ℕ
  pub meta : ℕ
  pub paste : Bool
  pub copy : Bool
  pub ts : Float

abbrev pub max_pointers : ℕ
max_pointers = 10

abbrev pub inject_text_max : ℕ
inject_text_max = 300

unfoldable pub is_ascii : Text → Bool
is_ascii s = not (any (λ c. leb 128 c) s)

unfoldable pub inject_text : Text → Channel → Injected
unfolding is_ascii text set_clipboard
inject_text s c =
    if is_empty s
    then (none, c)
    else if leb (length s) inject_text_max && is_ascii s
    then as_injected (text s c)
    else as_injected (set_clipboard s true c)

-- The action's number.
unfoldable pub touch_action : Text → Option ℕ
unfolding text_eq
touch_action a =
    if text_eq a (codes "down")
    then some 0
    else if text_eq a (codes "move")
    then some 2
    else if text_eq a (codes "up")
    then some 1
    else none

unfoldable pub key_action : Text → Option ℕ
unfolding text_eq
key_action a =
    if text_eq a (codes "down") then some 0 else if text_eq a (codes "up") then some 1 else none

-- cmp.Or(p, 1)
unfoldable pub or_one : Float → Float
or_one (nonneg m e) = if m == 0 then nonneg 1 0 else nonneg m e
or_one (negative m e) = if m == 0 then nonneg 1 0 else negative m e

abbrev pub pressure_of : WsInput → ℕ → Float
pressure_of i a = if a == 1 then i.pressure else or_one i.pressure

abbrev pub with_pointer : WsInput → ℕ → ℤ → Channel → Injected
with_pointer i a (negsuc n) c = refuse bad_pointer c
with_pointer i a (pos n) c =
    if leb max_pointers n
    then refuse bad_pointer c
    else as_injected (touch a n i.x i.y (pressure_of i a) c)

abbrev pub with_touch : WsInput → Option ℕ → Channel → Injected
with_touch i none c = refuse unknown_touch c
with_touch i (some a) c = with_pointer i a i.id c

abbrev with_key : WsInput → Option ℕ → Channel → Injected
with_key i none c = refuse unknown_key_action c
with_key i (some a) c = as_injected (key_event a i.code i.meta c)

abbrev request_of : WsInput → InputRequest
request_of i = record {
  kind = i.kind;
  x = i.x;
  y = i.y;
  x2 = i.x2;
  y2 = i.y2;
  ms = i.ms;
  key = i.key;
  text = [];
}

unfoldable pub dispatch_ws_input : Scaled → WsInput → Channel → Injected
unfolding touch_action key_action or_one inject_text inject_via_controller text_eq touch
dispatch_ws_input scaled i c =
    if text_eq i.kind (codes "touch")
    then with_touch i (touch_action i.action) c
    else if text_eq i.kind (codes "scroll")
    then as_injected (scroll i.x i.y i.dx i.dy c)
    else if text_eq i.kind (codes "keyev")
    then with_key i (key_action i.action) c
    else if text_eq i.kind (codes "text")
    then inject_text i.text c
    else if text_eq i.kind (codes "clip")
    then as_injected (set_clipboard i.text i.paste c)
    else if text_eq i.kind (codes "getclip")
    then as_injected (get_clipboard (if i.copy then 1 else 0) c)
    else if text_eq i.kind (codes "tap")
        || (text_eq i.kind (codes "swipe") || text_eq i.kind (codes "key"))
    then inject_via_controller scaled (request_of i) c
    else refuse bad_input_type c

-- What the browser is told of a message.
pub data Reply : Type 0 where
  pong : Float → Reply
  bad_json : Reply
  rejected : InputError → Reply

-- A message: binary, or text that is JSON for an input or not.
pub data Message : Type 0 where
  binary_message not_json : Message
  input : WsInput → Message

abbrev after_input : WsInput → Text → Shots → Injected → Option Reply × Shots × Channel
after_input i serial shots (some e, c) = (some (rejected e), shots, c)
after_input i serial shots (none, c) = (
  none,
  (if text_eq i.kind (codes "touch") && text_eq i.action (codes "move")
      then shots
      else invalidate serial shots),
  c,
)

-- One turn of the loop that reads.
unfoldable pub read_turn :
    Scaled → Text → Message → Shots → Channel → Option Reply × Shots × Channel
unfolding dispatch_ws_input invalidate
read_turn scaled serial binary_message shots c = (none, shots, c)
read_turn scaled serial not_json shots c = (some bad_json, shots, c)
read_turn scaled serial (input i) shots c =
    if text_eq i.kind (codes "ping")
    then (some (pong i.ts), shots, c)
    else after_input i serial shots (dispatch_ws_input scaled i c)
