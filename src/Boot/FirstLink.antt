-- ===== src/Boot/FirstLink.antt =====
-- The link of a new MQTT client behind the Connect of a start.
use ocpp_simulator.Base.{
  Bool, true, false, ◌≡◌, refl, [], ◌∷◌, Option, none, some, inl, inr, Option-cases,
}
use ocpp_simulator.Base.Assoc.{Assoc}
use ocpp_simulator.Result.{Error}
use ocpp_simulator.Mqtt.{dial, PahoBroker, Token, token_error, dialled, connect}
use ocpp_simulator.Mqtt.Routes.{IsVisit}
use ocpp_simulator.Mqtt.Fresh.{visit-nil}
use ocpp_simulator.Boot.{link_behind}

-- Whether IsConnected reports a link: it does where Connect reports no error.
abbrev up_behind : Bool → Option Error → Bool
up_behind retrying none = true
up_behind retrying (some e) = retrying

abbrev pub is_up : Bool → Token → Bool
is_up retrying token = up_behind retrying (token_error "mqtt connect timeout" token)

module _ {H : Type 0} where
  abbrev pub first_link : Bool → PahoBroker H
  first_link up = record { is_connected = up; handlers = []; requests = dial ∷ [] }

  pub link_behind-connect :
      (visit : Assoc H → Assoc H) (retrying : Bool) (token : Token)
      → IsVisit visit
      → link_behind retrying
          (connect visit token (record { is_connected = false; handlers = []; requests = [] }))
        ≡ first_link (is_up retrying token)
  unfolding connect dialled
  link_behind-connect visit retrying token visits =
      elim (Option-cases (token_error "mqtt connect timeout" token)) [
        | inl up ↦ rw (up, visit-nil visit visits) refl
        | inr (e, down) ↦ rw down refl
      ]
