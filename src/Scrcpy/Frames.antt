-- ===== src/Scrcpy/Frames.antt =====
-- Frames and device messages of internal/scrcpy/scrcpy.go, against an encoder of the server's format.
use droidpool.Prelude.{
  ℕ, zero, suc, ◌+◌, ◌*◌, ◌/◌, ◌%◌, ◌^◌, ◌<◌, ◌≤◌, ◌≡◌, refl, ap, Bool, true, false, [], ◌∷◌, ◌++◌,
  length, ◌==◌, arith, inl, inr, Option-cases,
}
use droidpool.Scrcpy.BigEndian.{
  Bytes, be16, be32, be64, read_be, read_full, read_full-append, read-be32, read-be64,
}
use droidpool.Scrcpy.Stream.{
  done, bytes, Frame, read_frame, max_frame_bytes, DeviceMessage, clipboard, ack_clipboard,
  uhid_output, read_device_message, read_clipboard, read_ack, read_uhid, max_device_message_bytes,
}

abbrev pub flag : Bool → ℕ
flag true = 1
flag false = 0

-- A packet of the server: the flags over the time stamp, the length and the data.
pub encode_frame : Frame → Bytes
encode_frame f =
    be64 (flag f.config * 2 ^ 63 + flag f.key_frame * 2 ^ 62 + f.pts)
    ++ (be32 (length f.payload) ++ f.payload)

pub bytes-append : (bs rest : Bytes) → bytes (length bs) (bs ++ rest) ≡ done bs rest
unfolding bytes
bytes-append bs rest = rw (read_full-append bs rest)

flags_parts :
    (pts : ℕ) (c k : Bool)
    → pts < 2 ^ 61
    → let v = flag c * 2 ^ 63 + flag k * 2 ^ 62 + pts in
      (v < 2 ^ 64) × (v % 2 ^ 61 ≡ pts) × ((v / 2 ^ 63 % 2 == 1) ≡ c) × ((v / 2 ^ 62 % 2 == 1) ≡ k)
flags_parts pts true true h = ground arith
flags_parts pts true false h = ground arith
flags_parts pts false true h = ground arith
flags_parts pts false false h = ground arith

-- Reading a packet with a time stamp below 2^61 and 1 to max_frame_bytes bytes of data gives the
-- frame that was encoded and leaves what follows it.
pub read_frame-encode_frame :
    (f : Frame) (rest : Bytes)
    → f.pts < 2 ^ 61
    → 0 < length f.payload
    → length f.payload ≤ max_frame_bytes
    → read_frame (encode_frame f ++ rest) ≡ done f rest
unfolding read_frame encode_frame
read_frame-encode_frame f rest small pos le =
    let v = flag f.config * 2 ^ 63 + flag f.key_frame * 2 ^ 62 + f.pts in
    let n = length f.payload in
    let (fits, low, c, k) = flags_parts f.pts f.config f.key_frame small in
    ground (
      arith,
      bytes-append (be64 v) (be32 n ++ (f.payload ++ rest)),
      bytes-append (be32 n) (f.payload ++ rest),
      bytes-append f.payload rest,
      read-be32 n,
      read-be64 v,
      low,
      c,
      k,
    )

-- A read that runs out of bytes, or takes exactly the bytes that it gives.
pub bytes-length :
    (n : ℕ) (s bs rest : Bytes) → bytes n s ≡ done bs rest → (length bs ≡ n) × (s ≡ bs ++ rest)
unfolding bytes read_full
bytes-length zero s bs rest e = ground arith
bytes-length (suc n) [] bs rest e = absurd (ground arith)
bytes-length (suc n) (b ∷ s) bs rest e = elim (Option-cases (read_full n s)) [
  | inl short ↦ absurd (ground (arith, short))
  | inr ((cs, left), full) ↦
      let (l, c) = bytes-length n s cs left (ground (arith, full)) in
      (ground (arith, full, l), ground (arith, full, c))
]

-- A message of the server: its type, and what follows it.
pub encode_message : DeviceMessage → Bytes
encode_message (clipboard s) = 0 ∷ (be32 (length s) ++ s)
encode_message (ack_clipboard n) = 1 ∷ be64 n
encode_message uhid_output = 2 ∷ (be16 7 ++ (be16 2 ++ (5 ∷ 6 ∷ [])))

-- What a message of the server may carry.
abbrev pub IsSendable : DeviceMessage → Type 0
IsSendable (clipboard s) = length s ≤ max_device_message_bytes
IsSendable (ack_clipboard n) = n < 2 ^ 64
IsSendable uhid_output = Unit

text_behind :
    (s rest : Bytes)
    → length s ≤ max_device_message_bytes
    → read_clipboard (be32 (length s) ++ (s ++ rest)) ≡ done (clipboard s) rest
unfolding read_clipboard
text_behind s rest le =
    ground
      (arith, bytes-append (be32 (length s)) (s ++ rest), bytes-append s rest, read-be32 (length s))

read-clipboard :
    (s rest : Bytes)
    → length s ≤ max_device_message_bytes
    → read_device_message (0 ∷ (be32 (length s) ++ (s ++ rest))) ≡ done (clipboard s) rest
unfolding read_device_message bytes read_full read_be
read-clipboard s rest le = text_behind s rest le

read-ack :
    (n : ℕ) (rest : Bytes)
    → n < 2 ^ 64
    → read_device_message (1 ∷ (be64 n ++ rest)) ≡ done (ack_clipboard n) rest
unfolding read_device_message bytes read_full read_be read_ack
read-ack n rest small = ap (λ k. done (ack_clipboard k) rest) (read-be64 n small)

-- Reading a device message gives the one that was encoded, a clipboard of up to 2^18 bytes, an
-- acknowledgement below 2^64 or a keyboard output, and leaves what follows it.
pub read_device_message-encode_message :
    (msg : DeviceMessage) (rest : Bytes)
    → IsSendable msg
    → read_device_message (encode_message msg ++ rest) ≡ done msg rest
unfolding encode_message
read_device_message-encode_message (clipboard s) rest le = read-clipboard s rest le
read_device_message-encode_message (ack_clipboard n) rest small = read-ack n rest small
read_device_message-encode_message uhid_output rest _ =
    unfold read_device_message read_uhid bytes read_full read_be in refl
