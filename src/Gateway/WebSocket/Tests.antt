-- ===== src/Gateway/WebSocket/Tests.antt =====
-- Requests for a session: a full one, one without an id, and one whose upgrade fails.
use ocpp_simulator.Base.{◌≡◌, refl, true, false, Bool, List, [], ◌∷◌, none, some}
use ocpp_simulator.Base.Assoc.{lookup}
use ocpp_simulator.Json.{str, json}
use ocpp_simulator.Topic.{in_topic, out_topic, extract_charge_point_id}
use ocpp_simulator.Gateway.{
  Client, Gateway, Read, text_frame, subscribed, unsubscribed, published, connect, disconnect,
  pump_inbound,
}
use ocpp_simulator.Gateway.WebSocket.{missing_id, session_ended, ws_handler}
use ocpp_simulator.Gateway.WebSocket.Ended.{IsAllocated, Left, ws_handler-Left}

abbrev client : Client
client = record {
  is_connected = true;
  subscribe_answer = λ topic. none;
  publish_answer = λ topic payload. none;
}

abbrev idle : Gateway
idle = record {
  handlers = [];
  calls = [];
  next = 0;
  heap = λ r. record {
    charge_point_id = "";
    unsubscribe = "";
    unsubscribe_done = true;
    outbound = [];
    closed = true;
  };
  conns = [];
}

abbrev reads : List (Read × Bool)
reads = (text_frame (json (str "a")), false) ∷ []

ws_handler-session : (ws_handler client "/ws/CP1" none reads idle).0 ≡ session_ended 0
unfolding ws_handler connect
ws_handler-session = refl

ws_handler-calls : (ws_handler client "/ws/CP1" none reads idle).1.calls ≡ (
    subscribed "ocpp/CP1/out"
    ∷ published "ocpp/CP1/in" (json (str "a"))
    ∷ unsubscribed "ocpp/CP1/out"
    ∷ [])
unfolding ws_handler connect disconnect pump_inbound in_topic out_topic
ws_handler-calls = refl

ws_handler-bad_path : ws_handler client "/ws/a/b" none reads idle ≡ (missing_id, idle)
unfolding ws_handler
ws_handler-bad_path = refl

idle-IsAllocated : IsAllocated idle
unfolding lookup
idle-IsAllocated id r registered = let absent : none ≡ some r = registered in cc

ws_handler-Left_example :
    Left client
      (extract_charge_point_id "/ws/CP1")
      idle
      (ws_handler client "/ws/CP1" none reads idle)
ws_handler-Left_example = ws_handler-Left client "/ws/CP1" none reads idle idle-IsAllocated
