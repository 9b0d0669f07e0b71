-- ===== src/Boot/ProcessorService.antt =====
-- apps/message-processor/cmd/processor/main.go, with NewHandler and NewHTTPCoreClient.
pub mod Started
pub mod Life
use ocpp_simulator.Base.{Bool, String, Option, none, some}
use ocpp_simulator.Base.Assoc.{Assoc}
use ocpp_simulator.Result.{Error, Result, ok, err, wrap, wrapping, ◌>>=◌}
use ocpp_simulator.Json.{Bytes}
use ocpp_simulator.Schemas.{SchemaLibrary}
use ocpp_simulator.Mqtt.{PahoBroker, Token, new_paho_broker}
use ocpp_simulator.Protocol.{Protocol}
use ocpp_simulator.Protocol.Versions.{protocol_16}
use ocpp_simulator.Processor.Broker.{connect, disconnect}
use ocpp_simulator.Processor.CoreClient.{CoreClient}
use ocpp_simulator.Processor.Handler.{Handler}
use ocpp_simulator.Processor.Subscription.Lifecycle.{
  Callback, Processor, new_processor, start_processor, stop_processor,
}
use ocpp_simulator.Boot.{link_behind, env_or}

-- What the process meets. The HTTP client for a base URL, and what a handler calls later on: the
-- broker's answers to a frame, a time, the text of an error.
pub record Surroundings (S : Type 0) : Type 0 where
  pub getenv : String → String
  pub visit : Assoc (Callback S) → Assoc (Callback S)
  pub connect_token : Token
  pub retrying : Bool
  pub subscribe_token : Token
  pub core_at : String → CoreClient S
  pub publish : String → Bytes → Option Error
  pub now : String
  pub error_text : Error → String

module _ {S : Type 0} (env : Surroundings S) where
  -- NewHandler. The audit events are recorded, whatever emitter it is given.
  unfoldable pub new_handler : Protocol → Option (CoreClient S) → Handler S
  new_handler protocol core = record {
    version = protocol.version;
    core = core;
    publish = env.publish;
    now = env.now;
    error_text = env.error_text;
  }

  abbrev pub handler : Handler S
  unfolding new_handler env_or
  handler =
      new_handler protocol_16
        (some (env.core_at (env_or env.getenv "OCPP_CORE_URL" "http://localhost:7090")))

-- if err := p.Start(...); err != nil { log.Fatalf(...) }
abbrev pub started : {S : Type 0} → Option Error × Processor S → Result (Processor S)
started (some e, p) = err (wrap "processor start" e)
started (none, p) = ok p

module _ {S : Type 0} (library : SchemaLibrary) (env : Surroundings S) where
  -- main, up to the health server. An error of Connect is only logged.
  unfoldable pub boot : Result (Processor S)
  unfolding env_or new_paho_broker connect new_handler start_processor
  boot = do
    let broker_url = env_or env.getenv "MQTT_BROKER_URL" "tcp://localhost:1883"
    let client_id = env_or env.getenv "MQTT_CLIENT_ID" "message-processor"
    broker ← wrapping "create mqtt broker" (new_paho_broker broker_url client_id)
    let linked = link_behind env.retrying (connect env.visit env.connect_token broker)
    started (
        start_processor library env.subscribe_token
          (new_processor (some linked) (some (handler env))))

-- main, behind the signal: Stop, and then Disconnect.
unfoldable pub shut_down : {S : Type 0} → Processor S → Processor S
unfolding stop_processor disconnect
shut_down p =
    let stopped = stop_processor p in
    elim stopped.broker [
      | none ↦ stopped
      | some b ↦ record stopped { broker = some (disconnect b) }
    ]
