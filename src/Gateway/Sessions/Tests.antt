-- ===== src/Gateway/Sessions/Tests.antt =====
-- A gateway whose broker is connected and accepts everything: a first connection, a second one of
-- the same charge point, and the end of the session.
use ocpp_simulator.Base.{◌≡◌, refl, true, [], ◌∷◌, none, some}
use ocpp_simulator.Base.Assoc.{lookup}
use ocpp_simulator.Result.{ok, no_such_charge_point}
use ocpp_simulator.Json.{str, json}
use ocpp_simulator.Topic.{out_topic}
use ocpp_simulator.Gateway.{
  Client, Gateway, subscribed, unsubscribed, connect, disconnect, publish_inbound,
}
use ocpp_simulator.Gateway.Sessions.{
  IsActive, connect-IsActive, connect-again, publish_inbound-disconnect,
}

abbrev client : Client
client = record {
  is_connected = true;
  subscribe_answer = λ topic. none;
  publish_answer = λ topic payload. none;
}

abbrev idle : Gateway
idle = record {
  handlers = [];
  calls = [];
  next = 0;
  heap = λ r. record {
    charge_point_id = "";
    unsubscribe = "";
    unsubscribe_done = true;
    outbound = [];
    closed = true;
  };
  conns = [];
}

unfoldable connected : Gateway
connected = (connect client "CP1" idle).1

no_session : lookup "CP1" idle.conns ≡ none
unfolding lookup
no_session = refl

first_ok : (connect client "CP1" idle).0 ≡ ok 0
unfolding connect
first_ok = refl

again_ok : (connect client "CP1" connected).0 ≡ ok 1
unfolding connect connected
again_ok = refl

-- The last call withdraws the subscription that the second connection has just made.
connect-again_calls :
    (connect client "CP1" connected).1.calls
    ≡ (subscribed "ocpp/CP1/out" ∷ subscribed "ocpp/CP1/out" ∷ unsubscribed "ocpp/CP1/out" ∷ [])
unfolding connect connected out_topic
connect-again_calls = refl

connected-IsActive : IsActive connected "CP1" 0
unfolding connected
connected-IsActive = (connect-IsActive client "CP1" idle 0 no_session first_ok).1

connect-again_example : lookup (out_topic "CP1") (connect client "CP1" connected).1.handlers ≡ none
connect-again_example = connect-again client "CP1" connected 0 1 connected-IsActive again_ok

publish_inbound-disconnect_example :
    publish_inbound client "CP1" (json (str "frame")) (disconnect client "CP1" connected)
    ≡ (some no_such_charge_point, disconnect client "CP1" connected)
publish_inbound-disconnect_example =
    publish_inbound-disconnect client "CP1" (json (str "frame")) connected
