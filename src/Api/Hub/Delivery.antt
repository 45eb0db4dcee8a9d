-- ===== src/Api/Hub/Delivery.antt =====
-- What the hub of internal/api/events.go delivers.
use droidpool.Prelude.{
  ℕ, ◌≤◌, ◌≡◌, refl, inl, inr, List, [], ◌∷◌, ◌++◌, Option, none, some, length, ltb, if◌then◌else◌,
  arith, find?, All, Option-cases, length-append,
}
use droidpool.Api.Hub.{
  Hub, Subscriber, capacity, is_channel, subscribe, without_channel, unsubscribe, offer, offer_all,
  publish, receive_each, receive, rest_of, subscribers,
}

-- The queue of a channel that is subscribed.
abbrev pub queue_of : {E : Type 0} → ℕ → Hub E → Option (List E)
queue_of ch none = none
queue_of ch (some subs) = elim (find? (is_channel ch) subs) [ none ↦ none | some s ↦ some s.queue ]

pub data Step (E : Type 0) : Type 0 where
  subscribes unsubscribes receives : ℕ → Step E
  publishes : E → Step E

abbrev pub step : {E : Type 0} → Step E → Hub E → Hub E
step (subscribes ch) h = subscribe ch h
step (unsubscribes ch) h = unsubscribe ch h
step (receives ch) h = receive ch h
step (publishes ev) h = publish ev h

abbrev pub run : {E : Type 0} → List (Step E) → Hub E → Hub E
run [] h = h
run (st ∷ ss) h = run ss (step st h)

abbrev pub IsBounded : {E : Type 0} → Hub E → Type 0
IsBounded none = Unit
IsBounded (some subs) = All (λ s. length s.queue ≤ capacity) subs

module _ {E : Type 0} where
  find-offer_all :
      (ch : ℕ) (ev : E) (subs : List (Subscriber E)) (s : Subscriber E)
      → find? (is_channel ch) subs ≡ some s
      → find? (is_channel ch) (offer_all ev subs) ≡ some (offer ev s)
  unfolding offer_all offer
  find-offer_all ch ev [] s h = ground arith
  find-offer_all ch ev (x ∷ subs) s h = ground (arith, find-offer_all ch ev subs s)

  length-offer_all :
      (ev : E) (subs : List (Subscriber E)) → length (offer_all ev subs) ≡ length subs
  unfolding offer_all
  length-offer_all ev [] = refl
  length-offer_all ev (s ∷ subs) = ground (arith, length-offer_all ev subs)

  -- Publishing puts the event behind the queue of a subscribed channel that has room, leaves one
  -- that has none as it is, and drops no subscriber.
  pub publish-delivers :
      (ch : ℕ) (ev : E) (h : Hub E) (q : List E)
      → queue_of ch h ≡ some q
      → (queue_of ch (publish ev h) ≡ some (if ltb (length q) capacity then q ++ ev ∷ [] else q))
        × (subscribers (publish ev h) ≡ subscribers h)
  unfolding publish subscribers offer
  publish-delivers ch ev none q e = absurd (ground arith)
  publish-delivers ch ev (some subs) q e = elim (Option-cases (find? (is_channel ch) subs)) [
    | inl gone ↦ absurd (ground (arith, gone))
    | inr (s, there) ↦
        (ground (arith, there, find-offer_all ch ev subs s there), length-offer_all ev subs)
  ]

  without_channel-IsBounded :
      (ch : ℕ) (subs : List (Subscriber E))
      → IsBounded (some subs)
      → IsBounded (some (without_channel ch subs))
  unfolding without_channel
  without_channel-IsBounded ch [] b = tt
  without_channel-IsBounded ch (s ∷ subs) b =
      ground (arith, without_channel-IsBounded ch subs b.1, b.0)

  offer_all-IsBounded :
      (ev : E) (subs : List (Subscriber E))
      → IsBounded (some subs)
      → IsBounded (some (offer_all ev subs))
  unfolding offer_all offer
  offer_all-IsBounded ev [] b = tt
  offer_all-IsBounded ev (s ∷ subs) b =
      (ground (arith, b.0, length-append s.queue (ev ∷ [])), offer_all-IsBounded ev subs b.1)

  length-rest_of : (es : List E) → length (rest_of es) ≤ length es
  length-rest_of [] = omega arith
  length-rest_of (e ∷ es) = omega arith

  receive_each-IsBounded :
      (ch : ℕ) (subs : List (Subscriber E))
      → IsBounded (some subs)
      → IsBounded (some (receive_each ch subs))
  unfolding receive_each
  receive_each-IsBounded ch [] b = tt
  receive_each-IsBounded ch (s ∷ subs) b =
      (ground (arith, b.0, length-rest_of s.queue), receive_each-IsBounded ch subs b.1)

  step-IsBounded : (st : Step E) (h : Hub E) → IsBounded h → IsBounded (step st h)
  unfolding subscribe unsubscribe receive publish
  step-IsBounded (subscribes ch) none b = tt
  step-IsBounded (unsubscribes ch) none b = tt
  step-IsBounded (receives ch) none b = tt
  step-IsBounded (publishes ev) none b = tt
  step-IsBounded (subscribes ch) (some subs) b = (omega arith, b)
  step-IsBounded (unsubscribes ch) (some subs) b = without_channel-IsBounded ch subs b
  step-IsBounded (receives ch) (some subs) b = receive_each-IsBounded ch subs b
  step-IsBounded (publishes ev) (some subs) b = offer_all-IsBounded ev subs b

  -- No queue of a hub ever holds more than 16 events, whatever is subscribed, left, published and
  -- received, if none did before.
  pub run-IsBounded : (ss : List (Step E)) (h : Hub E) → IsBounded h → IsBounded (run ss h)
  run-IsBounded [] h b = b
  run-IsBounded (st ∷ ss) h b = run-IsBounded ss (step st h) (step-IsBounded st h b)
