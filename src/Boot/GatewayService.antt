-- ===== src/Boot/GatewayService.antt =====
-- apps/ocpp-gateway/cmd/gateway/main.go, with New and NewRegistry. Behind the start the gateway is
-- the state of Gateway, which has its own record of the calls to the MQTT client.
use ocpp_simulator.Base.{Bool, ◌≡◌, refl, arith, String, Option, none, some, [], true}
use ocpp_simulator.Base.Assoc.{Assoc}
use ocpp_simulator.Result.{Result, ok, err, msg, wrapping, ◌>>=◌}
use ocpp_simulator.Mqtt.{Token, new_paho_broker, connect}
use ocpp_simulator.Gateway.{Connection, Gateway}
use ocpp_simulator.Gateway.Single.{Reach, IsSingle, Reach-IsSingle}
use ocpp_simulator.Boot.{link_behind, env_or}

-- No connection has been allocated; what the heap holds is not read.
abbrev no_connection : Connection
no_connection = record {
  charge_point_id = "";
  unsubscribe = "";
  unsubscribe_done = true;
  outbound = [];
  closed = true;
}

-- New
unfoldable pub new_gateway {ℓ} : {B : Type ℓ} → Option B → Result Gateway
new_gateway none = err (msg "broker is nil")
new_gateway (some broker) =
    ok (record { handlers = []; calls = []; next = 0; heap = λ r. no_connection; conns = [] })

pub record Surroundings : Type 0 where
  pub getenv : String → String
  pub visit : Assoc String → Assoc String
  pub connect_token : Token
  pub retrying : Bool

-- main, up to the HTTP server, and its address. An error of Connect is only logged.
unfoldable pub boot : Surroundings → Result (Gateway × String)
unfolding env_or new_paho_broker connect new_gateway
boot env = do
  let addr = env_or env.getenv "GATEWAY_ADDR" ":7080"
  let broker_url = env_or env.getenv "MQTT_BROKER_URL" "tcp://localhost:1883"
  let client_id = env_or env.getenv "MQTT_CLIENT_ID" "ocpp-gateway"
  broker ← wrapping "create mqtt broker" (new_paho_broker broker_url client_id)
  let linked = link_behind env.retrying (connect env.visit env.connect_token broker)
  gateway ← wrapping "create gateway" (new_gateway (some linked))
  ok (gateway, addr)

-- It always starts, and from there on each charge point has one open connection at most.
boot-IsSingle :
    (env : Surroundings)
    → (started : Gateway × String) × (boot env ≡ ok started)
      × ((g : Gateway) → Reach started.0 g → IsSingle g)
unfolding boot new_paho_broker new_gateway
boot-IsSingle env = (_, refl, λ g run. (Reach-IsSingle run (λ r below. absurd (omega arith))).0)
