-- ===== src/Mqtt/Fresh.antt =====
-- A wrapper that has no handler yet.
use ocpp_simulator.Base.{◌≡◌, refl, String, [], ◌∷◌, none, some, eq_refl}
use ocpp_simulator.Base.Assoc.{Assoc, lookup}
use ocpp_simulator.Mqtt.Routes.{IsVisit}

module _ {H : Type 0} where
  no_entries : (m : Assoc H) → ((topic : String) → lookup topic m ≡ none) → m ≡ []
  unfolding lookup
  no_entries [] absent = refl
  no_entries ((topic, h) ∷ m) absent =
      let here : some h ≡ none = rw (eq_refl topic) at (absent topic) in cc

  pub visit-nil : (visit : Assoc H → Assoc H) → IsVisit visit → visit [] ≡ []
  unfolding lookup
  visit-nil visit visits = no_entries (visit []) (λ topic. visits.same topic [] tt)
