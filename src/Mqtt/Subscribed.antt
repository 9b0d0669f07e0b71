-- ===== src/Mqtt/Subscribed.antt =====
-- The answers of Subscribe, and what it and its closure leave in the table.
use ocpp_simulator.Base.{◌≡◌, refl, String, false, ◌⊎◌, inl, inr, Bool-cases, Option-cases}
use ocpp_simulator.Base.Assoc.{insert, remove}
use ocpp_simulator.Result.{Error, Result, ok, err}
use ocpp_simulator.Mqtt.{PahoBroker, Token, token_error, Unsubscribe, subscribe, unsubscribe_once}

module _ {H : Type 0} (topic : String) (handler : H) (token : Token) where
  -- An error, or a closure of the topic that has not run.
  abbrev pub IsAnswer : Result Unsubscribe → Type 0
  IsAnswer r = ((e : Error) × (r ≡ err e)) ⊎ (r ≡ ok (record { topic = topic; done = false }))

  pub subscribe-IsAnswer : (b : PahoBroker H) → IsAnswer (subscribe topic handler token b).0
  unfolding subscribe
  subscribe-IsAnswer b = elim (Bool-cases b.is_connected) [
    | inr down ↦ rw down (inr refl)
    | inl up ↦ elim (Option-cases (token_error "mqtt subscribe timeout" token)) [
      | inl works ↦ rw (up, works) (inr refl)
      | inr (e, failed) ↦ rw (up, failed) (inl (e, refl))
    ]
  ]

  -- The handler is in the table behind an error too.
  pub subscribe-handlers :
      (b : PahoBroker H)
      → (subscribe topic handler token b).1.handlers ≡ insert topic handler b.handlers
  unfolding subscribe
  subscribe-handlers b = elim (Bool-cases b.is_connected) [
    | inr down ↦ rw down refl
    | inl up ↦ rw up refl
  ]

pub unsubscribe_once-handlers :
    {H : Type 0} (u : Unsubscribe) (b : PahoBroker H)
    → u.done ≡ false
    → (unsubscribe_once u b).1.handlers ≡ remove u.topic b.handlers
unfolding unsubscribe_once
unsubscribe_once-handlers u b first = rw first refl
