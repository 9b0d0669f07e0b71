-- ===== src/Processor/Subscription/Lifecycle.antt =====
-- processor.go: New, Start and Stop.
use Prim.Native.String as Text
use ocpp_simulator.Base.{
  ◌≡◌, refl, sym, ap, ◌∙◌, ◌⊎◌, String, eq_refl, false, Option, none, some, Option-cases, inl, inr,
}
use ocpp_simulator.Base.Assoc.{lookup, lookup-insert, lookup-remove}
use ocpp_simulator.Result.{Error, Result, ok, err, msg, wrap}
use ocpp_simulator.Result.Laws.{ok_inj}
use ocpp_simulator.Json.{Bytes}
use ocpp_simulator.Schemas.{SchemaLibrary}
use ocpp_simulator.Mqtt.{PahoBroker, Token, Unsubscribe}
use ocpp_simulator.Mqtt.Subscribed.{
  subscribe-IsAnswer, subscribe-handlers, unsubscribe_once-handlers,
}
use ocpp_simulator.Processor.Broker.{subscribe, unsubscribe_once}
use ocpp_simulator.Processor.Handler.{Handler, World}
use ocpp_simulator.Processor.Subscription.{on_message}

-- A callback: what a message on a topic does to the world of the processor.
abbrev pub Callback : Type 0 → Type 0
Callback S = String → Bytes → World S → World S

pub record Processor (S : Type 0) : Type 0 where
  pub broker : Option (PahoBroker (Callback S))
  pub handler : Option (Handler S)
  pub inbound_topic : String
  pub unsubscribe : Option Unsubscribe

module _ {S : Type 0} where
  abbrev pub new_processor : Option (PahoBroker (Callback S)) → Option (Handler S) → Processor S
  new_processor broker handler = record {
    broker = broker;
    handler = handler;
    inbound_topic = "ocpp/+/in";
    unsubscribe = none;
  }

  unfoldable pub subscribed :
      Processor S → Result Unsubscribe × PahoBroker (Callback S) → Option Error × Processor S
  subscribed p (err e, b) =
      (some (wrap (Text.◌++◌ "subscribe " p.inbound_topic) e), record p { broker = some b })
  subscribed p (ok u, b) = (none, record p { broker = some b; unsubscribe = some u })

  -- Stop; the closure holds its broker, so a processor with a closure has one.
  unfoldable pub stop_processor : Processor S → Processor S
  unfolding unsubscribe_once
  stop_processor p = elim p.unsubscribe [
    | none ↦ p
    | some u ↦ elim p.broker [
      | none ↦ record p { unsubscribe = none }
      | some b ↦ record p { broker = some (unsubscribe_once u b).1; unsubscribe = none }
    ]
  ]

module _ {S : Type 0} (library : SchemaLibrary) where
  unfoldable pub start_given :
      Token
      → Processor S
      → Option (PahoBroker (Callback S))
      → Option (Handler S)
      → Option Error × Processor S
  unfolding subscribed subscribe
  start_given token p none handler = (some (msg "processor: nil broker"), p)
  start_given token p (some b) none = (some (msg "processor: nil handler"), p)
  start_given token p (some b) (some h) =
      subscribed p (subscribe p.inbound_topic (on_message library h) token b)

  -- Start
  unfoldable pub start_processor : Token → Processor S → Option Error × Processor S
  unfolding start_given
  start_processor token p = start_given token p p.broker p.handler

  -- The processor's broker calls this handler for each frame of the inbound topic.
  pub record IsListening (p p' : Processor S) : Type 0 where
    pub started : Handler S
    pub link : PahoBroker (Callback S)
    pub own : p.handler ≡ some started
    pub linked : p'.broker ≡ some link
    pub listening : lookup p.inbound_topic link.handlers ≡ some (on_message library started)

  -- It has no handler for the inbound topic.
  pub record IsStopped (p p' : Processor S) : Type 0 where
    pub link : PahoBroker (Callback S)
    pub linked : p'.broker ≡ some link
    pub silent : lookup p.inbound_topic link.handlers ≡ none
    pub idle : stop_processor p' ≡ p'

  stop_processor-IsStopped :
      (p p' : Processor S) (b : PahoBroker (Callback S))
      → p'.broker ≡ some b
      → p'.unsubscribe ≡ some (record { topic = p.inbound_topic; done = false })
      → IsStopped p (stop_processor p')
  unfolding stop_processor unsubscribe_once
  stop_processor-IsStopped p p' b linked waits =
      rw (waits, linked)
        (record {
          link = _;
          linked = refl;
          silent =
              rw
                (
                  unsubscribe_once-handlers (record { topic = p.inbound_topic; done = false }) b
                      refl,
                  lookup-remove,
                  eq_refl p.inbound_topic,
                )
                refl;
          idle = refl;
        })

  subscribed-IsListening :
      (p : Processor S) (h : Handler S) (answer : Result Unsubscribe) (b : PahoBroker (Callback S))
      → p.handler ≡ some h
      → lookup p.inbound_topic b.handlers ≡ some (on_message library h)
      → ((e : Error) × (answer ≡ err e))
        ⊎ (answer ≡ ok (record { topic = p.inbound_topic; done = false }))
      → (subscribed p (answer, b)).0 ≡ none
      → IsListening p (subscribed p (answer, b)).1
        × IsStopped p (stop_processor (subscribed p (answer, b)).1)
  unfolding subscribed
  subscribed-IsListening p h (err e) b own held _ started = cc
  subscribed-IsListening p h (ok u) b own held (inl (e, failed)) started = cc
  subscribed-IsListening p h (ok u) b own held (inr fresh) started = (
    record { started = h; link = b; own = own; linked = refl; listening = held },
    stop_processor-IsStopped p (record p { broker = some b; unsubscribe = some u }) b refl
        (ap some (ok_inj fresh)),
  )

  start_processor-subscribed :
      (token : Token) (p : Processor S) (b : PahoBroker (Callback S)) (h : Handler S)
      → p.broker ≡ some b
      → p.handler ≡ some h
      → start_processor token p
        ≡ subscribed p (subscribe p.inbound_topic (on_message library h) token b)
  unfolding start_processor start_given
  start_processor-subscribed token p b h linked own =
      ap (λ o. start_given token p o p.handler) linked
      ∙ ap (λ o. start_given token p (some b) o) own

  -- Where Start answers no error, the processor's handler is called for the inbound topic, until a
  -- Stop, behind which the topic has no handler and a further Stop changes nothing.
  pub start_processor-stop :
      (token : Token) (p : Processor S)
      → (start_processor token p).0 ≡ none
      → IsListening p (start_processor token p).1
        × IsStopped p (stop_processor (start_processor token p).1)
  unfolding start_processor start_given subscribe
  start_processor-stop token p done = elim (Option-cases p.broker) [
    | inl nil ↦
        let refused : some (msg "processor: nil broker") ≡ none =
          sym (ap (λ o. (start_given token p o p.handler).0) nil) ∙ done in
        cc
    | inr (b, linked) ↦ elim (Option-cases p.handler) [
      | inl nil ↦
          let refused : some (msg "processor: nil handler") ≡ none =
            sym (
              ap (λ o. (start_given token p o p.handler).0) linked
              ∙ ap (λ o. (start_given token p (some b) o).0) nil)
            ∙ done in
          cc
      | inr (h, own) ↦
          let answer = subscribe p.inbound_topic (on_message library h) token b in
          let held : lookup p.inbound_topic answer.1.handlers ≡ some (on_message library h) =
            rw
              (
                subscribe-handlers p.inbound_topic (on_message library h) token b,
                lookup-insert,
                eq_refl p.inbound_topic,
              )
              refl in
          let runs = start_processor-subscribed token p b h linked own in
          rw runs (
            subscribed-IsListening p h answer.0 answer.1 own held
              (subscribe-IsAnswer p.inbound_topic (on_message library h) token b) (rw runs at done))
    ]
  ]
