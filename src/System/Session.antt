-- ===== src/System/Session.antt =====
-- A session from end to end: what a charge point writes to its WebSocket goes through the gateway
-- and the MQTT broker to the message processor, and what that publishes comes back over the
-- broker and the gateway to the same WebSocket. ocpp-core may be any client.
pub mod Tests
pub mod Whole
use ocpp_simulator.Base.{
  ℕ, ◌≡◌, refl, sym, subst, ap, ◌∙◌, ◌≤◌, String, Bool, true, false, List, [], ◌∷◌, ◌++◌, Option,
  none, some, map, length, length-map, All, All-map, arith, suc, ◌==◌, eq_iff,
}
use mathlib.Core.List.{append_assoc, append-nil, Perm}
use ocpp_simulator.Base.Permutations.{All-Perm, length-Perm}
use ocpp_simulator.Base.Assoc.{lookup}
use ocpp_simulator.Json.{Bytes}
use ocpp_simulator.Schemas.{SchemaLibrary}
use ocpp_simulator.Topic.{in_topic, out_topic, charge_point_id_from_topic}
use ocpp_simulator.Topic.Laws.{IsTopicId, charge_point_id-topics}
use ocpp_simulator.Processor.Handler.{Handler, World}
use ocpp_simulator.Processor.Handler.Replies.{published}
use ocpp_simulator.Processor.Subscription.{Turn, delivered, on_messages}
use ocpp_simulator.Processor.Subscription.Runs.{
  Answered, done, skipped, replied, on_messages-Answered,
}
use ocpp_simulator.Gateway as Gateway
use ocpp_simulator.Gateway.{Client, ClientCall, Gateway, Read, pump_inbound}
use ocpp_simulator.Gateway.Sessions.{IsActive}
use ocpp_simulator.Gateway.Forwarding.{text_reads, forwarded, pump_inbound-forwarded}
use ocpp_simulator.Gateway.Outbound.{
  deliver_all, pump_outbound, turns_of, deliver_all-queued, pump_outbound-written,
}

-- The MQTT broker: what it delivers to a subscription of the filter, of the publications, in order.
pub record MqttBroker : Type 0 where
  pub carry : String → List (String × Bytes) → List (String × Bytes)

abbrev pub on_topic : String → List Bytes → List (String × Bytes)
on_topic topic payloads = map (λ p. (topic, p)) payloads

-- Nothing is lost: a subscription gets the publications on its topic, and `+` stands for one level.
pub record IsLossless (mqtt : MqttBroker) : Type 0 where
  pub one_level :
      (id : String) (payloads : List Bytes)
      → IsTopicId id
      → mqtt.carry "ocpp/+/in" (on_topic (in_topic id) payloads) ≡ on_topic (in_topic id) payloads
  pub same_topic :
      (topic : String) (payloads : List Bytes)
      → mqtt.carry topic (on_topic topic payloads) ≡ on_topic topic payloads

-- The publications among the calls of the MQTT client.
unfoldable pub publications : List ClientCall → List (String × Bytes)
publications [] = []
publications (Gateway.published topic payload ∷ calls) = (topic, payload) ∷ publications calls
publications (Gateway.subscribed topic ∷ calls) = publications calls
publications (Gateway.unsubscribed topic ∷ calls) = publications calls

-- The order in which the callbacks of the processor publish, each in a goroutine of its own, with the
-- state in which each finds ocpp-core: any, of the deliveries.
pub record IsSchedule {S : Type 0} (schedule : List (String × Bytes) → List (Turn S)) : Type 0 where
  pub each : (ds : List (String × Bytes)) → Perm (map delivered (schedule ds)) ds

-- What the gateway's client does with messages on a topic, each with its choice of the select.
unfoldable pub dispatch : (Bytes → Bool) → String → List (String × Bytes) → Gateway → Option Gateway
unfolding lookup
dispatch first topic messages g = elim (lookup topic g.handlers) [
  | none ↦ some g
  | some id ↦ deliver_all id (map (λ d. (first d.1, d.1)) messages) g
]

module _ {S : Type 0} (library : SchemaLibrary) (h : Handler S) (client : Client)
    (mqtt : MqttBroker) (schedule : List (String × Bytes) → List (Turn S)) where
  -- The reads of a session, up to the channel of its connection. The calls and events are those of
  -- this exchange.
  unfoldable pub exchange :
      (Bytes → Bool)
      → String
      → ℕ
      → List (Read × Bool)
      → World S
      → Gateway
      → World S × Option Gateway
  unfolding publications dispatch
  exchange first id r reads w g =
      let g₁ = pump_inbound client id r reads (record g { calls = [] }) in
      let w₁ =
        on_messages library h (schedule (mqtt.carry "ocpp/+/in" (publications g₁.calls)))
          (record w { events = [] }) in
      (w₁, dispatch first (out_topic id) (mqtt.carry (out_topic id) (published w₁.events)) g₁)

publications-append :
    (cs ds : List ClientCall) → publications (cs ++ ds) ≡ publications cs ++ publications ds
unfolding publications
publications-append [] ds = refl
publications-append (Gateway.published topic p ∷ cs) ds =
    ap (◌∷◌ (topic, p)) (publications-append cs ds)
publications-append (Gateway.subscribed topic ∷ cs) ds = publications-append cs ds
publications-append (Gateway.unsubscribed topic ∷ cs) ds = publications-append cs ds

publications-forwarded :
    (topic : String) (ps : List Bytes) (calls : List ClientCall)
    → publications (forwarded topic ps calls) ≡ publications calls ++ on_topic topic ps
unfolding publications
publications-forwarded topic [] calls = sym (append-nil (publications calls))
publications-forwarded topic (p ∷ ps) calls =
    publications-forwarded topic ps (calls ++ (Gateway.published topic p ∷ []))
    ∙ ap (λ es. es ++ on_topic topic ps)
        (publications-append calls (Gateway.published topic p ∷ []))
    ∙ append_assoc (publications calls) ((topic, p) ∷ []) (on_topic topic ps)

module _ {S : Type 0} (library : SchemaLibrary) (h : Handler S) where
  -- The replies to frames of one charge point stand on its out topic, at most one for each.
  Answered-on_topic :
      (id : String) (ds xs : List (String × Bytes))
      → All (λ d. charge_point_id_from_topic d.0 ≡ id) ds
      → Answered library h ds xs
      → (fs : List Bytes) × (xs ≡ on_topic (out_topic id) fs) × (length fs ≤ length ds)
  Answered-on_topic id [] _ own done = ([], refl, omega arith)
  Answered-on_topic id (d ∷ ds) _ own (skipped why rest) =
      let (fs, same, fewer) = Answered-on_topic id ds _ own.1 rest in
      (fs, same, omega (arith, fewer))
  Answered-on_topic id (d ∷ ds) _ own (replied {frame = frame} m reply _ _ _ _ rest) =
      let (fs, same, fewer) = Answered-on_topic id ds _ own.1 rest in
      (frame ∷ fs, rw (own.0, same) refl, omega (arith, fewer))

  on_topic-All :
      (id : String) (ps : List Bytes)
      → IsTopicId id
      → All (λ d. (charge_point_id_from_topic d.0 == id) ≡ true) (on_topic (in_topic id) ps)
  on_topic-All id [] valid = tt
  on_topic-All id (p ∷ ps) valid =
      ((eq_iff _ _).1 (charge_point_id-topics id valid).0, on_topic-All id ps valid)

module _ {S : Type 0} (library : SchemaLibrary) (h : Handler S) where
  -- What the processor publishes for frames of one charge point, its callbacks in any order.
  on_messages-on_topic :
      (schedule : List (String × Bytes) → List (Turn S)) (id : String) (ps : List Bytes)
      (w : World S)
      → IsSchedule schedule
      → IsTopicId id
      → (fs : List Bytes) × (published
            (on_messages library h
              (schedule (on_topic (in_topic id) ps))
              (record w { events = [] })).events
          ≡ on_topic (out_topic id) fs)
        × (length fs ≤ length ps)
        × Answered library h
            (map delivered (schedule (on_topic (in_topic id) ps)))
            (on_topic (out_topic id) fs)
  on_messages-on_topic schedule id ps w schedules valid =
      let ds = on_topic (in_topic id) ps in
      let P = λ (d : String × Bytes). (charge_point_id_from_topic d.0 == id) ≡ true in
      let order = map {B = String × Bytes} delivered (schedule ds) in
      let (xs, events, answered) =
        on_messages-Answered library h (schedule ds) (record w { events = [] }) in
      let own : All P order =
        All-Perm P (λ d. hlevel) order ds (schedules.each ds)
          (on_topic-All library h id ps valid) in
      let named =
        All-map P (λ d. charge_point_id_from_topic d.0 ≡ id) order (λ d. (eq_iff _ _).0) own in
      let (fs, same, fewer) = Answered-on_topic library h id order xs named answered in
      (
        fs,
        events ∙ same,
        omega (
          arith,
          fewer,
          length-Perm order ds (schedules.each ds),
          length-map {B = String × Bytes} (λ p. (in_topic id, p)) ps,
        ),
        rw same at answered,
      )

-- A charge point in session: its connection is open and registered, its handler is in the table,
-- its channel is empty, and its id is fit for a topic.
pub record InSession (g : Gateway) (id : String) (r : ℕ) : Type 0 where
  pub valid : IsTopicId id
  pub active : IsActive g id r
  pub handled : lookup (out_topic id) g.handlers ≡ some id
  pub drained : (g.heap r).outbound ≡ []

-- The client has a link, and its tokens report no error for the topic.
pub record Accepts (client : Client) (topic : String) : Type 0 where
  pub linked : client.is_connected ≡ true
  pub takes : (p : Bytes) → client.publish_answer topic p ≡ none

dispatch-deliver_all :
    (first : Bytes → Bool) (topic id : String) (messages : List (String × Bytes)) (g : Gateway)
    → lookup topic g.handlers ≡ some id
    → dispatch first topic messages g ≡ deliver_all id (map (λ d. (first d.1, d.1)) messages) g
unfolding dispatch
dispatch-deliver_all first topic id messages g handled = rw (handled, dispatch) refl

payloads :
    (first : Bytes → Bool) (topic : String) (fs : List Bytes)
    → map {B = Bytes}
        (λ x. x.1)
        (map {B = Bool × Bytes} (λ d. (first d.1, d.1)) (on_topic topic fs))
      ≡ fs
payloads first topic [] = refl
payloads first topic (f ∷ fs) = ap (◌∷◌ f) (payloads first topic fs)

-- Messages on the out topic of a charge point whose connection is registered and open and whose
-- channel is empty: as many turns of the outbound loop in which no write fails write them.
pub dispatch-written :
    (first : Bytes → Bool) (id : String) (r : ℕ) (fs : List Bytes) (g : Gateway)
    → lookup (out_topic id) g.handlers ≡ some id
    → lookup id g.conns ≡ some r
    → (g.heap r).closed ≡ false
    → (g.heap r).outbound ≡ []
    → length fs ≤ 64
    → (g' : Gateway) × (dispatch first (out_topic id) (on_topic (out_topic id) fs) g ≡ some g')
      × ((choices : List Bool)
          → length choices ≡ length fs
          → (pump_outbound r (turns_of choices) g').0 ≡ fs)
dispatch-written first id r fs g handled registered unclosed empty few =
    let topic = out_topic id in
    let messages = map {B = Bool × Bytes} (λ d. (first d.1, d.1)) (on_topic topic fs) in
    let size : length messages ≡ length fs =
      length-map {B = Bool × Bytes} (λ (d : String × Bytes). (first d.1, d.1)) (on_topic topic fs)
      ∙ length-map {B = String × Bytes} (λ p. (topic, p)) fs in
    let (g', sent, queued, opened) =
      deliver_all-queued id r messages g registered unclosed
        (omega (arith, ap length empty, size)) in
    (
      g',
      dispatch-deliver_all first topic id (on_topic topic fs) g handled ∙ sent,
      λ choices same.
          pump_outbound-written r choices fs g'
            (queued
              ∙ ap (λ o. o ++ map {B = Bytes} (λ x. x.1) messages) empty
              ∙ payloads first topic fs)
            opened same,
    )

module _ {S : Type 0} (library : SchemaLibrary) (h : Handler S) (client : Client)
    (mqtt : MqttBroker) (schedule : List (String × Bytes) → List (Turn S)) where
  -- In a session over a broker that loses nothing and a client that accepts, where the charge point
  -- writes at most 64 text frames: the frames that come back on its WebSocket, by as many turns of
  -- the outbound loop in which no write fails, are one reply to each CALL among them and nothing
  -- else, in the order in which the callbacks of the processor publish, which may be any. Each decodes to a message with the id of its CALL, which is a
  -- CALLRESULT whose payload passed the handler's validation, or a CALLERROR.
  pub exchange-Answered :
      (first : Bytes → Bool) (id : String) (r : ℕ) (ps : List Bytes) (w : World S) (g : Gateway)
      → InSession g id r
      → Accepts client (in_topic id)
      → IsLossless mqtt
      → IsSchedule schedule
      → length ps ≤ 64
      → (fs : List Bytes) × (g' : Gateway) × ((exchange library h client mqtt schedule first id r
            (text_reads ps)
            w
            g).1
          ≡ some g')
        × ((choices : List Bool)
            → length choices ≡ length fs
            → (pump_outbound r (turns_of choices) g').0 ≡ fs)
        × Answered library h
            (map delivered (schedule (on_topic (in_topic id) ps)))
            (on_topic (out_topic id) fs)
  unfolding exchange
  exchange-Answered first id r ps w g session accepts lossless schedules few =
      let g₀ : Gateway = record g { calls = [] } in
      let g₁ : Gateway = record g { calls = forwarded (in_topic id) ps [] } in
      let pumped =
        pump_inbound-forwarded client id r r ps g₀ accepts.linked accepts.takes
          session.active.registered session.active.opened in
      let carried =
        ap (mqtt.carry "ocpp/+/in") (publications-forwarded (in_topic id) ps [])
        ∙ lossless.one_level id ps session.valid in
      let (fs, events, fewer, answered) =
        on_messages-on_topic library h schedule id ps w schedules session.valid in
      let returned =
        ap (mqtt.carry (out_topic id)) events ∙ lossless.same_topic (out_topic id) fs in
      let w₀ : World S = record w { events = [] } in
      let (g', sent, written) =
        dispatch-written first id r fs g₁ session.handled session.active.registered
          session.active.opened session.drained (omega arith) in
      (
        fs,
        g',
        ap
              (λ (k : Gateway).
                dispatch first (out_topic id)
                  (mqtt.carry (out_topic id) (
                    published
                      (on_messages library h
                        (schedule (mqtt.carry "ocpp/+/in" (publications k.calls))) w₀).events))
                  k)
              pumped
            ∙ ap
                (λ ds.
                  dispatch first (out_topic id)
                    (mqtt.carry (out_topic id)
                      (published (on_messages library h (schedule ds) w₀).events))
                    g₁)
                carried
            ∙ ap (λ ms. dispatch first (out_topic id) ms g₁) returned
            ∙ sent,
        written,
        answered,
      )
