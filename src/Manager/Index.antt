-- ===== src/Manager/Index.antt =====
-- internal/pool/manager.go: device numbers, ids, ports and addresses.
use mathlib.Core.List.{append_assoc}
use droidpool.Prelude.{
  true, ◌-◌, ◌&&◌, ◌||◌, leb, ℕ, ◌+◌, ◌^◌, ◌<◌, ◌≡◌, refl, sym, ap, [], ◌∷◌, ◌++◌, Option, none,
  some, arith, if◌then◌else◌, ltb, ◌==◌, Text,
}
use droidpool.Prelude.Decimal.{decimal, scan, is_digit, scan-decimal_end, decimal-head}
use droidpool.Exec.{Error, Result, ok, err, bad_device_id}
use droidpool.Manager.World.{Manager}

-- fmt.Sprintf("%s-%d", m.NodeName, i)
unfoldable pub device_id : Manager → ℕ → Text
device_id m i = m.node_name ++ b'-' ∷ decimal i

unfoldable pub port : Manager → ℕ → ℕ
port m i = m.port_base + i

unfoldable pub adb_addr : Manager → ℕ → Text
unfolding port
adb_addr m i = m.adb_host ++ b':' ∷ decimal (port m i)

-- The literal text of a Sscanf format, which must stand at the front.
unfoldable pub strip_prefix : Text → Text → Option Text
strip_prefix [] s = some s
strip_prefix (c ∷ p) [] = none
strip_prefix (c ∷ p) (d ∷ s) = if c == d then strip_prefix p s else none

-- How many of these bytes, the front of a text, are the UTF-8 of a space as fmt sees it, if any.
abbrev space_bytes : ℕ → ℕ → ℕ → ℕ
space_bytes c d e =
    if leb 9 c && leb c 13 || c == 32
    then 1
    else if c == 0xc2 && (d == 0x85 || d == 0xa0)
    then 2
    else if c == 0xe1 && d == 0x9a && e == 0x80
        || c == 0xe2
          && d == 0x80
          && (leb 0x80 e && leb e 0x8a || e == 0xa8 || e == 0xa9 || e == 0xaf)
        || c == 0xe2 && d == 0x81 && e == 0x9f
        || c == 0xe3 && d == 0x80 && e == 0x80
    then 3
    else 0

abbrev first : Text → ℕ
first [] = 0
first (c ∷ s) = c

abbrev space_length : ℕ → Text → ℕ
space_length c [] = space_bytes c 0 0
space_length c (d ∷ s) = space_bytes c d (first s)

-- SkipSpace of Sscanf, inside a space of which `k` bytes are left: a newline is an error.
unfoldable pub skip_spaces : ℕ → Text → Option Text
skip_spaces k [] = some []
skip_spaces k (c ∷ s) =
    let n = if k == 0 then space_length c s else k in
    let rest = skip_spaces (n - 1) s in
    if k == 0 && c == 10 then none else if n == 0 then some (c ∷ s) else rest

-- The value of leading digits, if there is one and it fits an int. What follows them is not read.
unfoldable pub read_digits : Text → Option ℕ
read_digits [] = none
read_digits (c ∷ s) =
    let (n, _) = scan 0 (c ∷ s) in
    if is_digit c then (if ltb n (2 ^ 63) then some n else none) else none

-- `%d` as far as a positive value comes of it: a minus sign gives none.
unfoldable pub read_positive : Text → Option ℕ
unfolding read_digits
read_positive [] = none
read_positive (c ∷ s) = if c == b'+' then read_digits s else read_digits (c ∷ s)

abbrev positive : Option ℕ → Result ℕ
positive none = err bad_device_id
positive (some i) = if i == 0 then err bad_device_id else ok i

abbrev pub and_then : {A B : Type 0} → Option A → (A → Option B) → Option B
and_then none f = none
and_then (some a) f = f a

-- fmt.Sscanf(deviceID, m.NodeName+"-%d", &i), and `i <= 0` is refused. The name of a node has
-- neither spaces nor `%` in it.
unfoldable pub index_of : Manager → Text → Result ℕ
unfolding strip_prefix skip_spaces read_positive
index_of m id = positive (
    and_then (strip_prefix (m.node_name ++ b'-' ∷ []) id)
      (λ s. and_then (skip_spaces 0 s) read_positive))

pub index_of-error :
    (m : Manager) (id : Text) (e : Error) → index_of m id ≡ err e → e ≡ bad_device_id
unfolding index_of
index_of-error m id e h = ground arith

pub strip_prefix-append : (p s : Text) → strip_prefix p (p ++ s) ≡ some s
unfolding strip_prefix
strip_prefix-append [] s = refl
strip_prefix-append (c ∷ p) s = ground (arith, strip_prefix-append p s)

space_bytes-digit : (c d e : ℕ) → is_digit c ≡ true → space_bytes c d e ≡ 0
unfolding is_digit
space_bytes-digit c d e h = ground arith

space_length-digit : (c : ℕ) (s : Text) → is_digit c ≡ true → space_length c s ≡ 0
space_length-digit c [] h = space_bytes-digit c 0 0 h
space_length-digit c (d ∷ s) h = space_bytes-digit c d (first s) h

skip_spaces-digit : (c : ℕ) (s : Text) → is_digit c ≡ true → skip_spaces 0 (c ∷ s) ≡ some (c ∷ s)
unfolding skip_spaces is_digit
skip_spaces-digit c s h = rw (space_length-digit c s h) (ground arith)

read_positive-decimal :
    (i : ℕ) → i < 2 ^ 63 → and_then (skip_spaces 0 (decimal i)) read_positive ≡ some i
unfolding read_positive read_digits is_digit
read_positive-decimal i small =
    let (c, s, e, d) = decimal-head i in
    let value = scan-decimal_end i in
    let kept = skip_spaces-digit c s d in ground (arith, e, d, value, kept, ap (scan 0) e)

-- The number of a device, from 1 to 2^63 - 1, comes back from its id.
pub index_of-device_id :
    (m : Manager) (i : ℕ) → 0 < i → i < 2 ^ 63 → index_of m (device_id m i) ≡ ok i
unfolding index_of device_id
index_of-device_id m i pos small =
    let front = strip_prefix-append (m.node_name ++ b'-' ∷ []) (decimal i) in
    let whole : m.node_name ++ b'-' ∷ decimal i ≡ (m.node_name ++ b'-' ∷ []) ++ decimal i =
      sym (append_assoc m.node_name (b'-' ∷ []) (decimal i)) in
    ground (arith, front, whole, read_positive-decimal i small)
