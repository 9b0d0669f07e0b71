-- ===== src/Processor/Subscription/Tests.antt =====
-- Two charge points, a foreign topic and a broken frame.
use ocpp_simulator.Base.{String, ◌≡◌, List, [], ◌∷◌, ◌++◌, none, some, ℕ, refl, true, map}
use ocpp_simulator.Json.{Bytes, junk}
use ocpp_simulator.Schemas.Tests.{heartbeat_library}
use ocpp_simulator.Processor.Handler.Tests.{handler, fresh, call_frame}
use ocpp_simulator.Processor.Handler.Replies.{published}
use ocpp_simulator.Processor.Subscription.{Turn, delivered, on_messages}
use ocpp_simulator.Mqtt.{PahoBroker, completes}
use ocpp_simulator.Mqtt as Mqtt
use ocpp_simulator.Processor.Subscription.Lifecycle.{
  Callback, Processor, new_processor, start_processor,
}
use ocpp_simulator.Processor.Subscription.Runs.{Answered, on_messages-Answered}

abbrev at : ℕ → String → Bytes → Turn ℕ
at found topic payload = record { found = found; topic = topic; payload = payload }

abbrev turns : List (Turn ℕ)
turns =
    at 3 "ocpp/CP-1/in" (call_frame "Heartbeat")
    ∷ at 1 "ocpp/CP-2/status" (call_frame "Heartbeat")
    ∷ at 0 "ocpp/CP-2/in" (junk "[2,")
    ∷ at 0 "ocpp/CP-2/in" (call_frame "DataTransfer")
    ∷ []

on_messages-Answered_example :
    (fs : List (String × Bytes)) × (published
        (on_messages heartbeat_library (handler none) turns fresh).events
      ≡ [] ++ fs)
    × Answered heartbeat_library (handler none) (map delivered turns) fs
on_messages-Answered_example = on_messages-Answered heartbeat_library (handler none) turns fresh

abbrev link : PahoBroker (Callback ℕ)
link = record { is_connected = true; handlers = []; requests = [] }

abbrev idle : Processor ℕ
idle = new_processor (some link) (some (handler none))

idle-starts : (start_processor heartbeat_library (completes none) idle).0 ≡ none
unfolding start_processor Mqtt.subscribe
idle-starts = refl
