-- ===== src/Mqtt.antt =====
-- The wrapper of the MQTT client that the three services share, line by line alike:
-- apps/ocpp-gateway/internal/gateway/paho_broker.go, apps/message-processor/internal/processor/
-- paho_broker.go and apps/ocpp-core/internal/broker/paho.go. The client itself is third-party: what
-- it is asked to do is recorded, and what its tokens report is an argument. A handler is of any type.
pub mod Routes
pub mod Links
pub mod Fresh
pub mod Subscribed
mod Tests
use ocpp_simulator.Base.{
  String, Bool, true, false, List, [], ◌∷◌, ◌++◌, Option, none, some, map, if◌then◌else◌,
}
use ocpp_simulator.Base.Assoc.{Assoc, insert, remove}
use ocpp_simulator.Result.{Error, Result, ok, err, msg}
use ocpp_simulator.Json.{Bytes}

-- What the client is asked to do.
pub data Request (H : Type 0) : Type 0 where
  dial hang_up : Request H
  ask : String → H → Request H
  withdraw : String → Request H
  send : String → Bytes → Request H

-- A token: WaitTimeout runs out, or it completes with the error that Error reports, if any.
pub data Token : Type 0 where
  times_out : Token
  completes : Option Error → Token

abbrev pub token_error : String → Token → Option Error
token_error timeout times_out = some (msg timeout)
token_error timeout (completes answer) = answer

-- The wrapper with its client: whether the client reports a link, the table of handlers, and the
-- requests to the client.
pub record PahoBroker (H : Type 0) : Type 0 where
  pub is_connected : Bool
  pub handlers : Assoc H
  pub requests : List (Request H)

-- The closure that Subscribe returns: its topic, and its `once`.
pub record Unsubscribe : Type 0 where
  pub topic : String
  pub done : Bool

abbrev subscribed_or : String → Option Error → Result Unsubscribe
subscribed_or topic (some e) = err e
subscribed_or topic none = ok (record { topic = topic; done = false })

module _ {H : Type 0} where
  -- NewPahoBroker, which reports no error; its arguments are options of the client.
  unfoldable pub new_paho_broker : String → String → Result (PahoBroker H)
  new_paho_broker broker_url client_id =
      ok (record { is_connected = false; handlers = []; requests = [] })

  abbrev pub request : Request H → PahoBroker H → PahoBroker H
  request r b = record b { requests = b.requests ++ (r ∷ []) }

  abbrev pub ask_for : String × H → Request H
  ask_for (topic, handler) = ask topic handler

  -- The link is up behind a Connect whose token reports no error, which asks for each handler of
  -- the table, in the order in which Go visits it.
  unfoldable pub dialled :
      (Assoc H → Assoc H) → Option Error → PahoBroker H → Option Error × PahoBroker H
  dialled visit (some e) b = (some e, b)
  dialled visit none b = (
    none,
    record b { is_connected = true; requests = b.requests ++ map ask_for (visit b.handlers) },
  )

  unfoldable pub connect : (Assoc H → Assoc H) → Token → PahoBroker H → Option Error × PahoBroker H
  unfolding dialled
  connect visit token b =
      if b.is_connected
      then (none, b)
      else dialled visit (token_error "mqtt connect timeout" token) (request dial b)

  unfoldable pub disconnect : PahoBroker H → PahoBroker H
  disconnect b =
      let b' : PahoBroker H = request hang_up b in
      if b.is_connected then record b' { is_connected = false } else b

  -- Publish, with the error that the service answers without a link
  unfoldable pub publish :
      Error → String → Bytes → Token → PahoBroker H → Option Error × PahoBroker H
  publish not_connected topic payload token b =
      if b.is_connected
      then (token_error "mqtt publish timeout" token, request (send topic payload) b)
      else (some not_connected, b)

  unfoldable pub subscribe : String → H → Token → PahoBroker H → Result Unsubscribe × PahoBroker H
  unfolding insert
  subscribe topic handler token b =
      let b' : PahoBroker H = record b { handlers = insert topic handler b.handlers } in
      if b.is_connected
      then (
        subscribed_or topic (token_error "mqtt subscribe timeout" token),
        request (ask topic handler) b',
      )
      else (subscribed_or topic none, b')

  -- A call of the closure
  unfoldable pub unsubscribe_once : Unsubscribe → PahoBroker H → Unsubscribe × PahoBroker H
  unfolding remove
  unsubscribe_once u b =
      let b' : PahoBroker H = request (withdraw u.topic) b in
      let told : PahoBroker H = if b.is_connected then b' else b in
      if u.done
      then (u, b)
      else (record u { done = true }, record told { handlers = remove u.topic b.handlers })
