-- ===== src/Boot/ProcessorService/Life.antt =====
-- What happens to the message processor between its start and its end, as its MQTT client sees it.
use ocpp_simulator.Base.{String, Bool, true, false, List, [], ◌∷◌, none, some}
use ocpp_simulator.Json.{Bytes}
use ocpp_simulator.Mqtt.{Request, send, PahoBroker, Token}
use ocpp_simulator.Processor.Broker.{publish}
use ocpp_simulator.Processor.Subscription.Lifecycle.{Callback, Processor}

-- The link is lost or comes back, or the handler hands a frame to the broker.
pub data Moment : Type 0 where
  link_is : Bool → Moment
  publishes : String → Bytes → Token → Moment

module _ {S : Type 0} where
  abbrev on_link : Moment → PahoBroker (Callback S) → PahoBroker (Callback S)
  unfolding publish
  on_link (link_is up) b = record b { is_connected = up }
  on_link (publishes topic payload token) b = (publish topic payload token b).1

  abbrev at_moment : Moment → Processor S → Processor S
  at_moment m p = elim p.broker [ none ↦ p | some b ↦ record p { broker = some (on_link m b) } ]

  unfoldable pub live : List Moment → Processor S → Processor S
  unfolding publish
  live [] p = p
  live (m ∷ ms) p = live ms (at_moment m p)

  -- The frames that reach the client: those that are published on a link.
  unfoldable pub sent_over : Bool → List Moment → List (Request (Callback S))
  sent_over up [] = []
  sent_over up (link_is now_up ∷ ms) = sent_over now_up ms
  sent_over true (publishes topic payload token ∷ ms) = send topic payload ∷ sent_over true ms
  sent_over false (publishes topic payload token ∷ ms) = sent_over false ms

-- Whether there is a link behind them.
unfoldable pub up_behind : Bool → List Moment → Bool
up_behind up [] = up
up_behind up (link_is now_up ∷ ms) = up_behind now_up ms
up_behind up (publishes topic payload token ∷ ms) = up_behind up ms
