-- ===== src/Scrcpy/Stream.antt =====
-- internal/scrcpy/scrcpy.go: reading frames, the handshake and device messages from a byte stream.
-- A stream that ends inside a read is an error.
use droidpool.Prelude.{
  ℕ, ◌*◌, ◌/◌, ◌%◌, ◌^◌, Bool, ◌||◌, [], ◌∷◌, Option, none, some, ltb, ◌==◌, if◌then◌else◌, Text,
  text_eq, codes,
}
use droidpool.Scrcpy.BigEndian.{Bytes, read_be, read_full}

pub data StreamError : Type 0 where
  short_read misaligned bad_codec bad_size : StreamError

pub data Read {ℓ} (A : Type ℓ) : Type ℓ where
  done : A → Bytes → Read A
  failed : StreamError → Read A

-- A reader takes bytes off the stream.
abbrev pub Reader : Type 0 → Type 0
Reader A = Bytes → Read A

abbrev pub returns : {A : Type 0} → A → Reader A
returns a s = done a s

abbrev pub fails_with : {A : Type 0} → StreamError → Reader A
fails_with e s = failed e

abbrev pub continue : {A B : Type 0} → Read A → (A → Reader B) → Read B
continue (done a s) f = f a s
continue (failed e) f = failed e

infixl 5 ◌>>=◌
abbrev pub ◌>>=◌ : {A B : Type 0} → Reader A → (A → Reader B) → Reader B
◌>>=◌ m f s = continue (m s) f

abbrev pub full_or_short : Option (Bytes × Bytes) → Read Bytes
full_or_short none = failed short_read
full_or_short (some (bs, rest)) = done bs rest

unfoldable pub bytes : ℕ → Reader Bytes
unfolding read_full
bytes n s = full_or_short (read_full n s)

pub record Frame : Type 0 where
  pub pts : ℕ
  pub config : Bool
  pub key_frame : Bool
  pub payload : Bytes

abbrev pub max_frame_bytes : ℕ
max_frame_bytes = 16 * 2 ^ 20

-- pf & ptsMask, pf & flagConfig != 0 and pf & flagKey != 0
abbrev pub frame_of : ℕ → Bytes → Frame
frame_of pf payload = record {
  pts = pf % 2 ^ 61;
  config = pf / 2 ^ 63 % 2 == 1;
  key_frame = pf / 2 ^ 62 % 2 == 1;
  payload = payload;
}

unfoldable pub read_frame : Reader Frame
read_frame = do
  flags ← bytes 8
  size ← bytes 4
  let n = read_be 0 size
  if n == 0 || ltb max_frame_bytes n
      then fails_with misaligned
      else do payload ← bytes n; returns (frame_of (read_be 0 flags) payload)

-- string(b[:i]) up to the first NUL, or the whole.
unfoldable pub trim_nul : Bytes → Text
trim_nul [] = []
trim_nul (b ∷ bs) = let rest = trim_nul bs in if b == 0 then [] else b ∷ rest

pub record Screen : Type 0 where
  pub device : Text
  pub width : ℕ
  pub height : ℕ

unfoldable pub handshake : Reader Screen
unfolding trim_nul
handshake = do
  name ← bytes 64
  codec ← bytes 4
  _ ← bytes 4
  w ← bytes 4
  h ← bytes 4
  if text_eq codec (codes "h264")
      then (if read_be 0 w == 0 || read_be 0 h == 0
          then fails_with bad_size
          else returns
              (record { device = trim_nul name; width = read_be 0 w; height = read_be 0 h }))
      else fails_with bad_codec

pub data DeviceMessage : Type 0 where
  clipboard : Text → DeviceMessage
  ack_clipboard : ℕ → DeviceMessage
  uhid_output : DeviceMessage

abbrev pub max_device_message_bytes : ℕ
max_device_message_bytes = 2 ^ 18

unfoldable pub read_clipboard : Reader DeviceMessage
read_clipboard = do
  size ← bytes 4
  let n = read_be 0 size
  if ltb max_device_message_bytes n
      then fails_with misaligned
      else do text ← bytes n; returns (clipboard text)

unfoldable pub read_ack : Reader DeviceMessage
read_ack = do sequence ← bytes 8; returns (ack_clipboard (read_be 0 sequence))

-- Two bytes of an id, two of a length, and as many bytes that are dropped.
unfoldable pub read_uhid : Reader DeviceMessage
read_uhid = do _ ← bytes 2; size ← bytes 2; _ ← bytes (read_be 0 size); returns uhid_output

unfoldable pub read_device_message : Reader DeviceMessage
unfolding read_clipboard read_ack read_uhid
read_device_message = do
  t ← bytes 1
  let n = read_be 0 t
  if n == 0
      then read_clipboard
      else if n == 1
      then read_ack
      else if n == 2
      then read_uhid
      else fails_with misaligned
