-- ===== src/Pool/State.antt =====
-- internal/pool/model.go: the device states and the table of allowed transitions.
use droidpool.Prelude.{◌≡◌, refl, Bool, true, false, List, [], ◌∷◌, any}

pub data DeviceState : Type 0 where
  creating ready leased resetting broken : DeviceState

abbrev pub state_eq : DeviceState → DeviceState → Bool
state_eq creating creating = true
state_eq ready ready = true
state_eq leased leased = true
state_eq resetting resetting = true
state_eq broken broken = true
state_eq _ _ = false

-- The targets that each state may move to.
unfoldable pub valid_transitions : DeviceState → List DeviceState
valid_transitions creating = ready ∷ broken ∷ []
valid_transitions ready = leased ∷ resetting ∷ broken ∷ []
valid_transitions leased = resetting ∷ broken ∷ []
valid_transitions resetting = ready ∷ broken ∷ []
valid_transitions broken = creating ∷ []

unfoldable pub can_transition : DeviceState → DeviceState → Bool
unfolding valid_transitions
can_transition from to = any (λ s. state_eq s to) (valid_transitions from)

-- A path of allowed transitions.
pub data Reaches (from : DeviceState) : DeviceState → Type 0 where
  here : Reaches from from
  step : {mid to : DeviceState} → Reaches from mid → can_transition mid to ≡ true → Reaches from to

Reaches-ready : (s : DeviceState) → Reaches s ready
unfolding can_transition
Reaches-ready creating = step {mid = creating} here refl
Reaches-ready ready = here
Reaches-ready leased = step (step {mid = leased} {to = resetting} here refl) refl
Reaches-ready resetting = step {mid = resetting} here refl
Reaches-ready broken = step (step {mid = broken} {to = creating} here refl) refl

-- From every state a device can come back to ready by allowed transitions, a leased device goes
-- neither to leased nor to ready directly, and exactly a broken one goes to creating.
pub transitions_recover :
    (s : DeviceState)
    → Reaches s ready
      × (can_transition leased leased ≡ false)
      × (can_transition leased ready ≡ false)
      × (can_transition s creating ≡ state_eq s broken)
unfolding can_transition
transitions_recover s = (
  Reaches-ready s,
  refl,
  refl,
  elim s as (λ x. can_transition x creating ≡ state_eq x broken) [
    | creating ↦ refl
    | ready ↦ refl
    | leased ↦ refl
    | resetting ↦ refl
    | broken ↦ refl
  ],
)
