-- ===== src/Api/Hub.antt =====
-- internal/api/events.go: the hub that sends changes to the walls that are being watched. A channel is
-- known by a number and holds at most 16 events; `none` is a hub that is nil. What a browser takes out
-- of its channel is `receive`.
pub mod Delivery
use droidpool.Prelude.{
  ℕ, ◌+◌, Bool, true, false, List, [], ◌∷◌, ◌++◌, Option, none, some, length, ltb, ◌==◌,
  if◌then◌else◌,
}

abbrev pub capacity : ℕ
capacity = 16

-- The events are of any type. `queue` has the oldest first.
pub record Subscriber (E : Type 0) : Type 0 where
  pub channel : ℕ
  pub queue : List E

abbrev pub is_channel : {E : Type 0} → ℕ → Subscriber E → Bool
is_channel ch s = s.channel == ch

abbrev pub Hub : Type 0 → Type 0
Hub E = Option (List (Subscriber E))

-- `ch` is the number of a channel that is made here.
unfoldable pub subscribe : {E : Type 0} → ℕ → Hub E → Hub E
subscribe ch none = none
subscribe ch (some subs) = some (record { channel = ch; queue = [] } ∷ subs)

unfoldable pub without_channel : {E : Type 0} → ℕ → List (Subscriber E) → List (Subscriber E)
without_channel ch [] = []
without_channel ch (s ∷ subs) =
    let rest = without_channel ch subs in if is_channel ch s then rest else s ∷ rest

unfoldable pub unsubscribe : {E : Type 0} → ℕ → Hub E → Hub E
unfolding without_channel
unsubscribe ch none = none
unsubscribe ch (some subs) = some (without_channel ch subs)

-- select { case ch <- ev: default: }
unfoldable pub offer : {E : Type 0} → E → Subscriber E → Subscriber E
offer ev s = if ltb (length s.queue) capacity then record s { queue = s.queue ++ ev ∷ [] } else s

unfoldable pub offer_all : {E : Type 0} → E → List (Subscriber E) → List (Subscriber E)
unfolding offer
offer_all ev [] = []
offer_all ev (s ∷ subs) = offer ev s ∷ offer_all ev subs

unfoldable pub publish : {E : Type 0} → E → Hub E → Hub E
unfolding offer_all
publish ev none = none
publish ev (some subs) = some (offer_all ev subs)

abbrev pub rest_of : {E : Type 0} → List E → List E
rest_of [] = []
rest_of (e ∷ es) = es

abbrev taken : {E : Type 0} → ℕ → Subscriber E → Subscriber E
taken ch s = if is_channel ch s then record s { queue = rest_of s.queue } else s

unfoldable pub receive_each : {E : Type 0} → ℕ → List (Subscriber E) → List (Subscriber E)
receive_each ch [] = []
receive_each ch (s ∷ subs) = taken ch s ∷ receive_each ch subs

unfoldable pub receive : {E : Type 0} → ℕ → Hub E → Hub E
unfolding receive_each
receive ch none = none
receive ch (some subs) = some (receive_each ch subs)

unfoldable pub subscribers : {E : Type 0} → Hub E → ℕ
subscribers none = 0
subscribers (some subs) = length subs
