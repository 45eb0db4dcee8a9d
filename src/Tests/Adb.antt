-- ===== src/Tests/Adb.antt =====
-- adb with a device whose connection is stale until it is renewed.
use droidpool.Prelude.{
  ◌≡◌, refl, Bool, true, false, [], ◌∷◌, Option, none, some, Text, codes, text_eq, if◌then◌else◌,
}
use droidpool.Prelude.Strings.{trim_space, trim_left_by, trim_right_by}
use droidpool.Manager.Index.{strip_prefix}
use droidpool.Api.Urls.{cut}
use droidpool.Adb.{Adb, Runs, alive, is_connected, escape_text, is_special}
use droidpool.Adb.Probed.{Link, alive-Tells}
use droidpool.Adb.Typed.{plain_word, backslash-breaks_out}

abbrev behind_connect : Runs → Bool
behind_connect [] = false
behind_connect ([] ∷ l) = false
behind_connect ((c ∷ []) ∷ l) = false
behind_connect ((c ∷ a ∷ []) ∷ l) = true
behind_connect ((c ∷ a ∷ b ∷ q) ∷ l) = false

-- A run behind one of `connect` is answered by 1.
abbrev answer : Runs → Option Text
answer [] = none
answer (r ∷ l) = some (if behind_connect l then codes "1" else [])

abbrev pub stale : Adb
stale = record { output = answer }

answers_if_good : (b : Bool) → text_eq (trim_space (if b then codes "1" else [])) (codes "1") ≡ b
unfolding text_eq trim_space trim_left_by trim_right_by
answers_if_good true = refl
answers_if_good false = refl

connects_always : (b : Bool) → is_connected (some (if b then codes "1" else [])) ≡ true
unfolding cut strip_prefix
connects_always true = refl
connects_always false = refl

stale-Link : Link stale (codes "d") true
stale-Link = record {
  good = behind_connect;
  probes = λ l. answers_if_good (behind_connect l);
  connects = λ l. connects_always (behind_connect l);
  renewed = λ l. refl;
}

alive-Tells_example : (alive stale (codes "d") []).0 ≡ true
alive-Tells_example = alive-Tells stale (codes "d") true [] stale-Link

backslash-breaks_out_example : plain_word false (escape_text (b'\\' ∷ b';' ∷ codes "reboot")) ≡ none
unfolding is_special
backslash-breaks_out_example = backslash-breaks_out b';' (codes "reboot") refl
