-- ===== src/Boot/ProcessorService/Started.antt =====
-- How the message processor starts, and what it asks of the MQTT client from its start to its end.
use ocpp_simulator.Base.{
  ◌≡◌, refl, sym, subst, ap, ◌∙◌, Bool, true, false, List, [], ◌∷◌, ◌++◌, none, some, inl, inr,
  Option-cases,
}
use mathlib.Core.List.{append_assoc, append-nil}
use ocpp_simulator.Base.Assoc.{lookup, insert, remove}
use ocpp_simulator.Result.{Result, Error, wrap}
use ocpp_simulator.Schemas.{SchemaLibrary}
use ocpp_simulator.Mqtt.{
  Request, dial, hang_up, ask, withdraw, send, PahoBroker, Token, token_error, new_paho_broker,
  dialled,
}
use ocpp_simulator.Mqtt as Mqtt
use ocpp_simulator.Mqtt.Routes.{IsVisit}
use ocpp_simulator.Processor.Broker.{connect, disconnect, publish, subscribe, unsubscribe_once}
use ocpp_simulator.Processor.Subscription.{on_message}
use ocpp_simulator.Processor.Subscription.Lifecycle.{
  Callback, Processor, new_processor, subscribed, start_given, start_processor, stop_processor,
}
use ocpp_simulator.Boot.FirstLink.{first_link, is_up, link_behind-connect}
use ocpp_simulator.Boot.Ends.{Ends}
use ocpp_simulator.Boot.ProcessorService.Life.{
  Moment, link_is, publishes, live, sent_over, up_behind,
}
use ocpp_simulator.Boot.ProcessorService.{Surroundings, handler, started, boot, shut_down}

module _ {S : Type 0} (library : SchemaLibrary) (env : Surroundings S) where
  -- What the client is asked by the start, with and without a link behind Connect.
  abbrev pub asked_at_start : Bool → List (Request (Callback S))
  asked_at_start true = dial ∷ ask "ocpp/+/in" (on_message library (handler env)) ∷ []
  asked_at_start false = dial ∷ []

  -- What it is asked by the end, with and without a link.
  abbrev pub asked_at_end : Bool → List (Request (Callback S))
  asked_at_end true = withdraw "ocpp/+/in" ∷ hang_up ∷ []
  asked_at_end false = []

  abbrev pub is_up_first : Bool
  is_up_first = is_up env.retrying env.connect_token

  -- It serves: its handler, over the 1.6J protocol and ocpp-core at the configured address, is in
  -- the table for the inbound topic, and behind the end no handler is. Over a life with these
  -- moments the client is asked to dial and, where IsConnected reports a link behind Connect, for
  -- the inbound topic; then to send each frame that is published while there is a link; then, where
  -- there is one at the end, to withdraw the topic and to hang up, in this order.
  pub record IsServing (ms : List Moment) (p : Processor S) : Type 0 where
    pub link : PahoBroker (Callback S)
    pub last : PahoBroker (Callback S)
    pub linked : p.broker ≡ some link
    pub listening : lookup "ocpp/+/in" link.handlers ≡ some (on_message library (handler env))
    pub ended : (shut_down (live ms p)).broker ≡ some last
    pub silent : lookup "ocpp/+/in" last.handlers ≡ none
    pub asked :
        last.requests
        ≡ (asked_at_start is_up_first ++ sent_over is_up_first ms)
          ++ asked_at_end (up_behind is_up_first ms)

  pub data Fault : Error → Type 0 where
    subscribe_fails :
        (e : Error)
        → is_up env.retrying env.connect_token ≡ true
        → token_error "mqtt subscribe timeout" env.subscribe_token ≡ some e
        → Fault (wrap "processor start" (wrap "subscribe ocpp/+/in" e))

  -- A processor that started, by what it asked the client.
  abbrev started_on : Bool → List (Request (Callback S)) → Processor S
  started_on up requests = record {
    broker = some (record {
      is_connected = up;
      handlers = ("ocpp/+/in", on_message library (handler env)) ∷ [];
      requests = requests;
    });
    handler = some (handler env);
    inbound_topic = "ocpp/+/in";
    unsubscribe = some (record { topic = "ocpp/+/in"; done = false });
  }

  on_link : PahoBroker (Callback S) → Result (Processor S)
  on_link b =
      started
        (start_processor library env.subscribe_token (new_processor (some b) (some (handler env))))

  live-started_on :
      (ms : List Moment) (up : Bool) (requests : List (Request (Callback S)))
      → live ms (started_on up requests)
        ≡ started_on (up_behind up ms) (requests ++ sent_over up ms)
  unfolding live sent_over up_behind publish Mqtt.publish
  live-started_on [] up requests = ap (started_on up) (sym (append-nil requests))
  live-started_on (link_is now_up ∷ ms) up requests = live-started_on ms now_up requests
  live-started_on (publishes topic payload token ∷ ms) true requests =
      live-started_on ms true (requests ++ (send topic payload ∷ []))
      ∙ ap (started_on (up_behind true ms))
          (append_assoc requests (send topic payload ∷ []) (sent_over true ms))
  live-started_on (publishes topic payload token ∷ ms) false requests =
      live-started_on ms false requests

  -- The end of a processor that started.
  abbrev ended_on : Bool → List (Request (Callback S)) → PahoBroker (Callback S)
  ended_on up requests = record {
    is_connected = false;
    handlers = [];
    requests = requests ++ asked_at_end up;
  }

  shut_down-started_on :
      (up : Bool) (requests : List (Request (Callback S)))
      → (shut_down (started_on up requests)).broker ≡ some (ended_on up requests)
  unfolding shut_down stop_processor unsubscribe_once Mqtt.unsubscribe_once disconnect
      Mqtt.disconnect remove
  shut_down-started_on true requests =
      ap (λ rs. some (record { is_connected = false; handlers = []; requests = rs }))
        (append_assoc requests (withdraw "ocpp/+/in" ∷ []) (hang_up ∷ []))
  shut_down-started_on false requests =
      ap (λ rs. some (record { is_connected = false; handlers = []; requests = rs }))
        (sym (append-nil requests))

  started_on-IsServing :
      (ms : List Moment) (up : Bool)
      → is_up_first ≡ up
      → IsServing ms (started_on up (asked_at_start up))
  unfolding lookup
  started_on-IsServing ms up same = record {
    link = _;
    last = ended_on (up_behind up ms) (asked_at_start up ++ sent_over up ms);
    linked = refl;
    listening = refl;
    ended =
        ap (λ p. (shut_down p).broker) (live-started_on ms up (asked_at_start up))
        ∙ shut_down-started_on (up_behind up ms) (asked_at_start up ++ sent_over up ms);
    silent = refl;
    asked = rw same refl;
  }

  on_link-Ends :
      (ms : List Moment) (up : Bool)
      → is_up_first ≡ up
      → Ends (IsServing ms) Fault (on_link (first_link up))
  unfolding on_link start_processor start_given subscribed subscribe Mqtt.subscribe insert remove
  on_link-Ends ms false down = started_on-IsServing ms false down
  on_link-Ends ms true up =
      elim (Option-cases (token_error "mqtt subscribe timeout" env.subscribe_token)) [
        | inl heard ↦ rw heard (started_on-IsServing ms true up)
        | inr (e, failed) ↦ rw failed (subscribe_fails e up failed)
      ]

  -- Where a visit of a map meets each of its entries: the processor serves, whatever Connect
  -- reports; or, where IsConnected reports a link and the token of the subscription an error, it
  -- ends by that error. Where it serves and then publishes any frames while its link is lost and
  -- comes back in any order, its client is asked, from the start to the end: to dial, and for the
  -- inbound topic where IsConnected reports a link behind Connect; then to send each frame
  -- published on a link; then, where there is a link at the end, to withdraw the topic and to hang
  -- up, in this order. No handler is left in the table.
  pub boot-IsServing :
      (ms : List Moment) → IsVisit env.visit → Ends (IsServing ms) Fault (boot library env)
  unfolding boot new_paho_broker connect on_link
  boot-IsServing ms visits =
      subst (λ b. Ends (IsServing ms) Fault (on_link b))
        (sym (link_behind-connect env.visit env.retrying env.connect_token visits))
        (on_link-Ends ms (is_up env.retrying env.connect_token) refl)
