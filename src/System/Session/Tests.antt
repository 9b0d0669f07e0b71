-- ===== src/System/Session/Tests.antt =====
-- A charge point that sends a Heartbeat, a broken frame and a DataTransfer.
use mathlib.Core.List.{Perm}
use mathlib.Core.List.Perm
use ocpp_simulator.Base.{
  ℕ, String, ◌++◌, ◌≡◌, refl, true, false, List, [], ◌∷◌, none, arith, eq_iff,
}
use ocpp_simulator.Base.Texts.{contains_any}
use ocpp_simulator.Base.Assoc.{lookup}
use ocpp_simulator.Json.{Bytes, junk}
use ocpp_simulator.Topic.{out_topic, extract_charge_point_id}
use ocpp_simulator.Processor.Handler.Tests.{call_frame}
use ocpp_simulator.Processor.Subscription.{Turn}
use ocpp_simulator.Gateway.{Client, Gateway, connect}
use ocpp_simulator.Result.{ok}
use ocpp_simulator.System.Session.{MqttBroker, InSession}

abbrev client : Client
client = record {
  is_connected = true;
  subscribe_answer = λ topic. none;
  publish_answer = λ topic payload. none;
}

abbrev pub mqtt : MqttBroker
mqtt = record { carry = λ filter ps. ps }

abbrev pub gateway : Gateway
gateway = record {
  handlers = (out_topic "CP-1", "CP-1") ∷ [];
  calls = [];
  next = 1;
  heap = λ r. record {
    charge_point_id = "CP-1";
    unsubscribe = out_topic "CP-1";
    unsubscribe_done = false;
    outbound = [];
    closed = false;
  };
  conns = ("CP-1", 0) ∷ [];
}

abbrev frames : List Bytes
frames = call_frame "Heartbeat" ∷ junk "[2," ∷ call_frame "DataTransfer" ∷ []

pub cp1-InSession : InSession gateway "CP-1" 0
unfolding lookup contains_any out_topic
cp1-InSession = record {
  valid = record { nonempty = λ e. ground (arith, eq_iff "CP-1" ""); one_level = refl };
  active = record {
    registered = refl;
    allocated = omega arith;
    subscribed = refl;
    held = refl;
    opened = refl;
  };
  handled = refl;
  drained = refl;
}

abbrev idle : Gateway
idle = record gateway { handlers = []; next = 0; conns = [] }

-- The callbacks publish in the reverse order of their deliveries.
abbrev backwards : List (String × Bytes) → List (Turn ℕ)
backwards [] = []
backwards ((topic, payload) ∷ ds) =
    backwards ds ++ (record { found = 0; topic = topic; payload = payload } ∷ [])

connected : (connect client (extract_charge_point_id "/ws/CP-1") idle).0 ≡ ok 0
unfolding connect
connected = refl
