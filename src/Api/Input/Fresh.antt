-- ===== src/Api/Input/Fresh.antt =====
-- What internal/api/wall.go shows after an input: a new picture.
use droidpool.Prelude.{
  ℕ, ◌≡◌, refl, ap, ◌∙◌, Bool, true, false, [], ◌∷◌, ◌++◌, Option, none, some, Text, text_eq,
  text_eq_iff, is_some, arith, inl, inr, Bool-cases,
}
use droidpool.Prelude.Decimal.{decimal}
use droidpool.Manager.Index.{strip_prefix, strip_prefix-append}
use droidpool.Exec.{ok}
use droidpool.Pool.Lease.{Device}
use droidpool.Adb.{Adb, Runs}
use droidpool.Scrcpy.Control.{Channel}
use droidpool.Api.Wall.{Shot, ShotEntry, Shots, shot_key, entry, keep_shot, invalidate, recent, get}
use droidpool.Scrcpy.Swipe.{Scaled}
use droidpool.Api.Input.{
  InputRequest, InputError, injected, bad_input_type, unknown_key, unknown_touch,
  unknown_key_action, bad_pointer, adb_failed, refused, settled, inject_via_controller,
  inject_via_adb, handle_input,
}

-- No picture is kept under a key that starts with the serial.
entry-invalidate :
    (serial rest : Text) (shots : Shots)
    → (entry (serial ++ rest) (invalidate serial shots)).shot ≡ none
unfolding entry invalidate
entry-invalidate serial rest [] = refl
entry-invalidate serial rest (e ∷ es) = elim (Bool-cases (text_eq e.key (serial ++ rest))) [
  | inl same ↦
      let is = (text_eq_iff e.key (serial ++ rest)).0 same in
      let starts =
        ap (λ k. is_some (strip_prefix serial k)) is
        ∙ ap is_some (strip_prefix-append serial rest) in
      ground (arith, same, starts, entry-invalidate serial rest es)
  | inr other ↦ elim (Bool-cases (is_some (strip_prefix serial e.key))) [
    | inl starts ↦ ground (arith, other, starts, entry-invalidate serial rest es)
    | inr apart ↦ ground (arith, other, apart, entry-invalidate serial rest es)
  ]
]

recent-none : (now ttl : ℕ) (e : ShotEntry) → e.shot ≡ none → recent now ttl e ≡ none
unfolding recent
recent-none now ttl e h = ground (arith, h)

module _ (shoot : Text → ℕ → ℕ → Runs → Option Shot × Runs) where
  -- The picture shown is the one that `shoot` takes now, and nothing else was run.
  abbrev pub IsShotNow : Text → ℕ → ℕ → Runs → Option Shot × Shots × Runs → Type 0
  IsShotNow serial max_w quality runs shown =
      (shown.0 ≡ (shoot serial max_w quality runs).0)
      × (shown.2 ≡ (shoot serial max_w quality runs).1)

  keep_shot-IsShotNow :
      (e : ShotEntry) (later : ℕ) (shots : Shots) (p : Option Shot × Runs)
      → ((keep_shot shoot e later shots p).0 ≡ p.0) × ((keep_shot shoot e later shots p).2 ≡ p.1)
  keep_shot-IsShotNow e later shots (none, runs) = (refl, refl)
  keep_shot-IsShotNow e later shots (some s, runs) = (refl, refl)

  get-invalidate :
      (serial : Text) (max_w quality ttl now later : ℕ) (shots : Shots) (runs : Runs)
      → IsShotNow serial max_w quality runs
          (get shoot serial max_w quality ttl now later (invalidate serial shots) runs)
  unfolding get shot_key
  get-invalidate serial max_w quality ttl now later shots runs =
      let key_rest = b'|' ∷ (decimal max_w ++ (b'|' ∷ decimal quality)) in
      let stale =
        recent-none now ttl (entry (serial ++ key_rest) (invalidate serial shots))
          (entry-invalidate serial key_rest shots) in
      rw stale (
        keep_shot-IsShotNow (entry (serial ++ key_rest) (invalidate serial shots)) later
          (invalidate serial shots) (shoot serial max_w quality runs))

  settled-injected :
      (serial : Text) (over via : Bool) (e : Option InputError) (shots : Shots)
      → (settled serial over e shots).0 ≡ injected via
      → (settled serial over e shots).1 ≡ invalidate serial shots
  settled-injected serial over via none shots h = refl
  settled-injected serial over via (some bad_input_type) shots h = absurd (ground (arith, h))
  settled-injected serial over via (some unknown_key) shots h = absurd (ground (arith, h))
  settled-injected serial over via (some unknown_touch) shots h = absurd (ground (arith, h))
  settled-injected serial over via (some unknown_key_action) shots h = absurd (ground (arith, h))
  settled-injected serial over via (some bad_pointer) shots h = absurd (ground (arith, h))
  settled-injected serial over via (some adb_failed) shots h = absurd (ground (arith, h))
  settled-injected serial over via (some (refused x)) shots h = absurd (ground (arith, h))

  -- After an input that is answered as made, over scrcpy or adb, a screenshot of the device of any
  -- size and quality is taken anew, whatever was kept of it and however recent, and nothing else
  -- is run for it.
  pub handle_input-Fresh :
      (a : Adb) (scaled : Scaled) (d : Device) (r : InputRequest) (shots : Shots) (runs : Runs)
      (ctrl : Option Channel) (via : Bool) (max_w quality ttl now later : ℕ)
      → let after = handle_input (some a) scaled (ok d) (some r) shots runs ctrl in
        after.0 ≡ injected via
        → IsShotNow d.adb_addr max_w quality after.2
            (get shoot d.adb_addr max_w quality ttl now later after.1 after.2)
  unfolding handle_input
  handle_input-Fresh a scaled d r shots runs none via max_w quality ttl now later h =
      let (e, runs') = inject_via_adb a d.adb_addr r runs in
      rw (settled-injected d.adb_addr false via e shots h)
        (get-invalidate d.adb_addr max_w quality ttl now later shots runs')
  handle_input-Fresh a scaled d r shots runs (some c) via max_w quality ttl now later h =
      let (e, c') = inject_via_controller scaled r c in
      rw (settled-injected d.adb_addr true via e shots h)
        (get-invalidate d.adb_addr max_w quality ttl now later shots runs)
