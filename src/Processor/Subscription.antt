-- ===== src/Processor/Subscription.antt =====
-- processor.go: the callback of the subscription to `ocpp/+/in`, and any number of them. The client
-- runs each in a goroutine of its own (SetOrderMatters(false)). A callback asks ocpp-core once and
-- publishes once at most, so what callbacks publish side by side is given by the order in which they
-- publish and by the state in which each finds ocpp-core.
pub mod Runs
pub mod Lifecycle
mod Tests
use ocpp_simulator.Base.{String, ◌==◌, List, [], ◌∷◌, if◌then◌else◌}
use ocpp_simulator.Json.{Bytes}
use ocpp_simulator.Schemas.{SchemaLibrary}
use ocpp_simulator.Topic.{charge_point_id_from_topic}
use ocpp_simulator.Processor.Handler.{Handler, World, handle}

-- One run of the callback: the state in which it finds ocpp-core, and what it is delivered.
pub record Turn (S : Type 0) : Type 0 where
  pub found : S
  pub topic : String
  pub payload : Bytes

abbrev pub delivered : {S : Type 0} → Turn S → String × Bytes
delivered t = (t.topic, t.payload)

module _ {S : Type 0} (library : SchemaLibrary) (h : Handler S) where
  -- the closure of Processor.Start: a topic of another shape is dropped
  unfoldable pub on_message : String → Bytes → World S → World S
  unfolding charge_point_id_from_topic handle
  on_message topic payload w =
      let id = charge_point_id_from_topic topic in
      if id == "" then w else handle library h id payload w

  -- The callbacks in the order in which they publish. Behind them only the events count: what ocpp-core
  -- has become depends on the order in which it was asked.
  unfoldable pub on_messages : List (Turn S) → World S → World S
  unfolding on_message
  on_messages [] w = w
  on_messages (t ∷ ts) w =
      on_messages ts (on_message t.topic t.payload (record w { core_state = t.found }))
