-- ===== src/Gateway.antt =====
-- apps/ocpp-gateway/internal/gateway: the broker link (paho_broker.go), the registry of connections
-- (registry.go), the gateway (gateway.go) and the loops of a WebSocket (ws.go).
-- The goroutines of a connection are separate operations on one state; each runs whole. A closure
-- that Connect subscribes is known by its charge point id, the only variable it captures.
pub mod Sessions
pub mod Single
pub mod Outbound
pub mod WebSocket
pub mod Forwarding
use Prim.Native.String as Text
use ocpp_simulator.Base.{
  ℕ, suc, String, ◌==◌, Bool, true, false, List, [], ◌∷◌, ◌++◌, Option, none, some, eqb,
  if◌then◌else◌, ◌||◌,
}
use ocpp_simulator.Base.Assoc.{Assoc, lookup, insert, remove}
use ocpp_simulator.Result.{Error, Result, ok, err, msg, wrap, no_such_charge_point}
use ocpp_simulator.Json.{Bytes}
use ocpp_simulator.Topic.{in_topic, out_topic}

-- What the calls of the MQTT client are seen to do.
pub data ClientCall : Type 0 where
  subscribed unsubscribed : String → ClientCall
  published : String → Bytes → ClientCall

-- The MQTT client: whether it is connected, and what the tokens of Subscribe and Publish report.
pub record Client : Type 0 where
  pub is_connected : Bool
  pub subscribe_answer : String → Option Error
  pub publish_answer : String → Bytes → Option Error

-- Connection. `unsubscribe` is the topic of the closure that Subscribe returned, with its
-- `once` in `unsubscribe_done`; `closed` says that CloseOnce has run and the channel is closed.
pub record Connection : Type 0 where
  pub charge_point_id : String
  pub unsubscribe : String
  pub unsubscribe_done : Bool
  pub outbound : List Bytes
  pub closed : Bool

-- The gateway with its broker: connections are shared, so they stand in a heap under numbers
-- below `next`, and the registry holds their numbers.
pub record Gateway : Type 0 where
  pub handlers : Assoc String
  pub calls : List ClientCall
  pub next : ℕ
  pub heap : ℕ → Connection
  pub conns : Assoc ℕ

abbrev pub write_heap : ℕ → Connection → (ℕ → Connection) → ℕ → Connection
write_heap r c heap i = if eqb i r then c else heap i

module _ (client : Client) where
  unfoldable pub call_client : ClientCall → Gateway → Gateway
  call_client c g = if client.is_connected then record g { calls = g.calls ++ (c ∷ []) } else g

  -- PahoBroker.Subscribe, with the id that the handler captures; an error is none of its tokens
  unfoldable pub subscribe : String → String → Gateway → Result String × Gateway
  unfolding call_client insert
  subscribe topic id g =
      let g' : Gateway = record g { handlers = insert topic id g.handlers } in
      if client.is_connected
      then (
        elim (client.subscribe_answer topic) [ some e ↦ err e | none ↦ ok topic ],
        call_client (subscribed topic) g',
      )
      else (ok topic, g')

  -- The closure that Subscribe returns
  unfoldable pub unsubscribe_once : ℕ → Gateway → Gateway
  unfolding call_client remove
  unsubscribe_once r g =
      let c = g.heap r in
      let g' : Gateway = call_client (unsubscribed c.unsubscribe) g in
      if c.unsubscribe_done then g else record g' {
        handlers = remove c.unsubscribe g.handlers;
        heap = write_heap r (record c { unsubscribe_done = true }) g.heap;
      }

  -- CloseOnce.Do(func() { Unsubscribe(); close(closed) })
  unfoldable pub close_once : ℕ → Gateway → Gateway
  unfolding unsubscribe_once
  close_once r g =
      let g' : Gateway = unsubscribe_once r g in
      if (g.heap r).closed
      then g
      else record g' { heap = write_heap r (record (g'.heap r) { closed = true }) g'.heap }

  unfoldable pub close_existing : Option ℕ → Gateway → Gateway
  unfolding close_once
  close_existing none g = g
  close_existing (some r) g = close_once r g

  -- Registry.Register
  unfoldable pub register_connection : ℕ → Gateway → Gateway
  unfolding close_existing lookup insert
  register_connection r g =
      let id = (g.heap r).charge_point_id in
      close_existing (lookup id g.conns) (record g { conns = insert id r g.conns })

  unfoldable pub connect_subscribed : String → Result String × Gateway → Result ℕ × Gateway
  unfolding register_connection
  connect_subscribed id (err e, g) = (err (wrap (Text.◌++◌ "subscribe " (out_topic id)) e), g)
  connect_subscribed id (ok topic, g) =
      let c : Connection = record {
        charge_point_id = id;
        unsubscribe = topic;
        unsubscribe_done = false;
        outbound = [];
        closed = false;
      } in
      (
        ok g.next,
        register_connection g.next
            (record g { next = suc g.next; heap = write_heap g.next c g.heap }),
      )

  -- Gateway.Connect
  unfoldable pub connect : String → Gateway → Result ℕ × Gateway
  unfolding connect_subscribed subscribe
  connect id g = connect_subscribed id (subscribe (out_topic id) id g)

  -- Registry.Disconnect, and so Gateway.Disconnect
  unfoldable pub disconnect : String → Gateway → Gateway
  unfolding close_existing lookup remove
  disconnect id g = close_existing (lookup id g.conns) (record g { conns = remove id g.conns })

  unfoldable pub publish_registered : String → Bytes → Option ℕ → Gateway → Option Error × Gateway
  unfolding call_client
  publish_registered id payload none g = (some no_such_charge_point, g)
  publish_registered id payload (some r) g =
      let topic = in_topic id in
      if client.is_connected
      then (client.publish_answer topic payload, call_client (published topic payload) g)
      else (some (msg "mqtt not connected"), g)

  -- Gateway.PublishInbound over PahoBroker.Publish
  unfoldable pub publish_inbound : String → Bytes → Gateway → Option Error × Gateway
  unfolding publish_registered lookup
  publish_inbound id payload g = publish_registered id payload (lookup id g.conns) g

-- What ReadMessage gives: a text frame, a frame of another type, or an error.
pub data Read : Type 0 where
  text_frame other_frame : Bytes → Read
  read_failed : Read

module _ (client : Client) where
  -- pumpInbound, over the reads of a connection, each with what the request's context says behind
  -- it: whether it is done. Behind the last read the loop waits for the next.
  -- What it writes to the socket before it ends (a close frame) is not modelled.
  unfoldable pub pump_inbound : String → ℕ → List (Read × Bool) → Gateway → Gateway
  unfolding publish_inbound
  pump_inbound id r [] g = g
  pump_inbound id r ((read_failed, done) ∷ reads) g = g
  pump_inbound id r ((other_frame payload, done) ∷ reads) g = g
  pump_inbound id r ((text_frame payload, done) ∷ reads) g =
      let (answer, g') = publish_inbound client id payload g in
      let rest = pump_inbound id r reads g' in
      elim answer [ some e ↦ g' | none ↦ if done || (g'.heap r).closed then g' else rest ]
