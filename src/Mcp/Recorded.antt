-- ===== src/Mcp/Recorded.antt =====
-- What `writeADBAddr` of cmd/droidpool-mcp/main.go does to the local record.
use droidpool.Prelude.{
  ◌≡◌, ◌≢◌, Option-cases, refl, ◌⊎◌, inl, inr, Bool, true, false, not, ◌&&◌, [], ◌∷◌, Option, none,
  some, Text, text_eq, text_eq_iff, text_eq_refl, is_empty, arith, Bool-cases, if◌then◌else◌,
}
use droidpool.Mcp.Tools.{Value, Rec, string_at, put, or_no_record, addr_key, write_adb_addr}

-- rec[key], if it is there
pub value_at : Text → Rec → Option Value
value_at key [] = none
value_at key ((k, v) ∷ r) = let rest = value_at key r in if text_eq k key then some v else rest

string_at-put : (key v : Text) (r : Rec) → string_at key (put key v r) ≡ v
unfolding string_at put
string_at-put key v [] = rw (text_eq_refl key) refl
string_at-put key v ((k, w) ∷ r) = elim (Bool-cases (text_eq k key)) [
  | inl same ↦ rw (same, text_eq_refl key) refl
  | inr apart ↦ rw apart (rw apart (string_at-put key v r))
]

value_at-put :
    (key j v : Text) (r : Rec) → text_eq key j ≡ false → value_at j (put key v r) ≡ value_at j r
unfolding value_at put
value_at-put key j v [] ne = rw ne refl
value_at-put key j v ((k, w) ∷ r) ne =
    ground
      (arith, ne, text_eq_iff k key, text_eq_iff k j, text_eq_iff key j, value_at-put key j v r)

empty_or_same :
    (old addr : Text)
    → not (is_empty old) && not (text_eq old addr) ≡ false
    → (old ≡ []) ⊎ (old ≡ addr)
empty_or_same [] addr h = inl refl
empty_or_same (c ∷ s) addr h = inr (ground (arith, h, text_eq_iff (c ∷ s) addr))

neither :
    (old addr : Text)
    → not (is_empty old) && not (text_eq old addr) ≡ true
    → (old ≢ []) × (old ≢ addr)
neither [] addr h = absurd (ground (arith, h))
neither (c ∷ s) addr h =
    (λ e. ground (arith, e), λ e. ground (arith, e, h, text_eq_iff (c ∷ s) addr))

-- The record is of another device; or it could not be written; or only its address is new.
abbrev pub Keeps : Option (Option Rec) → Text → Text → Option Rec → Bool × Option Rec → Type 0
Keeps fails addr key file x =
    let old = string_at addr_key (or_no_record file) in
    (x.0 ≡ false) × (x.1 ≡ file) × (old ≢ []) × (old ≢ addr)
    ⊎ (x.0 ≡ false) × (fails ≡ some x.1)
    ⊎ (x.0 ≡ true)
      × (string_at addr_key (or_no_record x.1) ≡ addr)
      × (value_at key (or_no_record x.1) ≡ value_at key (or_no_record file))
      × ((old ≡ []) ⊎ (old ≡ addr))

-- Writing an address into the local record has one of three outcomes: nothing is written and the
-- file stays as it is, and the record had another address that is not empty; or the writing
-- failed; or the record has the new address, had none or this one, and any other field is as
-- before.
pub write_adb_addr-Keeps :
    (fails : Option (Option Rec)) (addr key : Text) (file : Option Rec)
    → text_eq addr_key key ≡ false
    → Keeps fails addr key file (write_adb_addr fails addr file)
unfolding write_adb_addr
write_adb_addr-Keeps fails addr key file ne =
    let r = or_no_record file in
    let old = string_at addr_key r in
    elim (Bool-cases (not (is_empty old) && not (text_eq old addr))) [
      | inl taken ↦
          let (given, apart) = neither old addr taken in rw taken (inl (refl, refl, given, apart))
      | inr free ↦ elim (Option-cases fails) [
        | inr (left, failed) ↦ rw (free, failed) (inr (inl (refl, refl)))
        | inl works ↦
            rw (free, works)
              (inr (
                inr (
                  refl,
                  string_at-put addr_key addr r,
                  value_at-put addr_key key addr r ne,
                  empty_or_same old addr free,
                )))
      ]
    ]
