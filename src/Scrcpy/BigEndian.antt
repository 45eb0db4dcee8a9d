-- ===== src/Scrcpy/BigEndian.antt =====
-- encoding/binary's big-endian numbers of 2, 4 and 8 bytes, written and read.
use droidpool.Prelude.{
  ℕ, zero, suc, ◌+◌, ◌*◌, ◌/◌, ◌%◌, ◌^◌, ◌<◌, ◌≡◌, refl, List, [], ◌∷◌, ◌++◌, Option, none, some,
  arith, length,
}

abbrev pub Bytes : Type 0
Bytes = List ℕ

abbrev pub be16 : ℕ → Bytes
be16 v = (v / 2 ^ 8 % 2 ^ 8) ∷ (v % 2 ^ 8) ∷ []

abbrev pub be32 : ℕ → Bytes
be32 v = (v / 2 ^ 24 % 2 ^ 8) ∷ (v / 2 ^ 16 % 2 ^ 8) ∷ be16 v

abbrev pub be64 : ℕ → Bytes
be64 v =
    (v / 2 ^ 56 % 2 ^ 8)
    ∷ (v / 2 ^ 48 % 2 ^ 8)
    ∷ (v / 2 ^ 40 % 2 ^ 8)
    ∷ (v / 2 ^ 32 % 2 ^ 8)
    ∷ be32 v

-- binary.BigEndian.Uint16, Uint32 and Uint64, of as many bytes as there are.
unfoldable pub read_be : ℕ → Bytes → ℕ
read_be acc [] = acc
read_be acc (b ∷ bs) = read_be (acc * 2 ^ 8 + b) bs

pub read-be16 : (v : ℕ) → v < 2 ^ 16 → read_be 0 (be16 v) ≡ v
unfolding read_be
read-be16 v h = omega arith

pub read-be32 : (v : ℕ) → v < 2 ^ 32 → read_be 0 (be32 v) ≡ v
unfolding read_be
read-be32 v h = omega arith

pub read-be64 : (v : ℕ) → v < 2 ^ 64 → read_be 0 (be64 v) ≡ v
unfolding read_be
read-be64 v h = omega arith

-- io.ReadFull: the first `n` bytes and the rest, if there are so many.
unfoldable pub read_full : ℕ → Bytes → Option (Bytes × Bytes)
read_full zero s = some ([], s)
read_full (suc n) [] = none
read_full (suc n) (b ∷ s) = elim (read_full n s) [
  | none ↦ none
  | some (bs, rest) ↦ some (b ∷ bs, rest)
]

pub read_full-append : (bs rest : Bytes) → read_full (length bs) (bs ++ rest) ≡ some (bs, rest)
unfolding read_full
read_full-append [] rest = refl
read_full-append (b ∷ bs) rest = rw (read_full-append bs rest, read_full)
