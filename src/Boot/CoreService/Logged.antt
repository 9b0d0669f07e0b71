-- ===== src/Boot/CoreService/Logged.antt =====
-- The MQTT step of the start of ocpp-core: Start of the log on the link of a new client, and on none.
use ocpp_simulator.Base.{
  Bool, ◌≡◌, refl, sym, subst, ap, ◌∙◌, true, false, List, [], ◌∷◌, none, some, inl, inr,
  Option-cases,
}
use ocpp_simulator.Base.Assoc.{insert, remove}
use ocpp_simulator.Result.{Error, Result, ok, err, wrap}
use ocpp_simulator.Mqtt.{
  Request, dial, ask, PahoBroker, Token, token_error, new_paho_broker, dialled,
}
use ocpp_simulator.Mqtt as Mqtt
use ocpp_simulator.Core.Broker.{subscribe}
use ocpp_simulator.Core.CanonLog.Start.{
  Callback, LogUnsubscribe, start_log, subscribed_inbound, subscribed_outbound, on_frame,
  inbound_topic_pattern, outbound_topic_pattern, IsLogging, start_log-cases,
}
use ocpp_simulator.Boot.{with_state}
use ocpp_simulator.Boot.FirstLink.{first_link}
use ocpp_simulator.Boot.Ends.{Ends}

-- The subscriptions that the MQTT client has been asked for, with and without a link.
abbrev pub asked_for : Bool → List (Request Callback)
asked_for true =
    ask inbound_topic_pattern (on_frame "inbound")
    ∷ ask outbound_topic_pattern (on_frame "outbound")
    ∷ []
asked_for false = []

abbrev pub Logging : Type 0
Logging = LogUnsubscribe × PahoBroker Callback

-- The log on a link, and on none.
start_log-IsLogging :
    (i o : Token) (b : PahoBroker Callback) (l : Logging)
    → start_log i o b ≡ (ok l.0, l.1)
    → IsLogging (ok l.0, l.1)
start_log-IsLogging i o b l works = elim (start_log-cases i o b) [
  | inl logging ↦ subst IsLogging works logging
  | inr left ↦
      let answered : ok l.0 ≡ err left.error = sym (ap (λ r. r.0) works) ∙ left.answered in cc
]

-- The log has its handlers, and the client has been asked for both where it has a link; then neither
-- token reports an error.
abbrev pub IsAsked : Bool → Token → Token → Logging → Type 0
IsAsked up i o l =
    IsLogging (ok l.0, l.1)
    × (l.1.requests ≡ dial ∷ asked_for up)
    × (up ≡ true → token_error "mqtt subscribe timeout" i ≡ none)
    × (up ≡ true → token_error "mqtt subscribe timeout" o ≡ none)

logs :
    (F : Error → Type 0) (up : Bool) (i o : Token) (b : PahoBroker Callback) (l : Logging)
    → start_log i o b ≡ (ok l.0, l.1)
    → l.1.requests ≡ dial ∷ asked_for up
    → (up ≡ true → token_error "mqtt subscribe timeout" i ≡ none)
    → (up ≡ true → token_error "mqtt subscribe timeout" o ≡ none)
    → Ends (IsAsked up i o) F (with_state "canonlog start" (start_log i o b))
logs F up i o b l works asked heard told =
    subst (λ r. Ends (IsAsked up i o) F (with_state "canonlog start" r)) (sym works)
      (start_log-IsLogging i o b l works, asked, heard, told)

ends_log :
    (F : Error → Type 0) (good : Logging → Type 0) (e : Error)
    (r : Result LogUnsubscribe × PahoBroker Callback)
    → r.0 ≡ err e
    → F (wrap "canonlog start" e)
    → Ends good F (with_state "canonlog start" r)
ends_log F good e r fails fault =
    subst (λ a. Ends good F (with_state "canonlog start" (a, r.1))) (sym fails) fault

abbrev closures : LogUnsubscribe
closures = (
  record { topic = inbound_topic_pattern; done = false },
  record { topic = outbound_topic_pattern; done = false },
)

abbrev online : Logging
online = (
  closures,
  record {
    is_connected = true;
    handlers =
        (outbound_topic_pattern, on_frame "outbound")
        ∷ (inbound_topic_pattern, on_frame "inbound")
        ∷ [];
    requests = dial ∷ asked_for true;
  },
)

start_log-down :
    (F : Error → Type 0) (i o : Token)
    → Ends (IsAsked false i o) F (with_state "canonlog start" (start_log i o (first_link false)))
unfolding start_log subscribed_inbound subscribed_outbound subscribe Mqtt.subscribe
start_log-down F i o = logs F false i o (first_link false) _ refl refl (λ up. cc) (λ up. cc)

start_log-up :
    (F : Error → Type 0) (i o : Token)
    → ((e : Error)
        → token_error "mqtt subscribe timeout" i ≡ some e
        → F (wrap "canonlog start" (wrap "subscribe ocpp/+/in" e)))
    → ((e : Error)
        → token_error "mqtt subscribe timeout" o ≡ some e
        → F (wrap "canonlog start" (wrap "subscribe ocpp/+/out" e)))
    → Ends (IsAsked true i o) F (with_state "canonlog start" (start_log i o (first_link true)))
unfolding start_log subscribed_inbound subscribed_outbound subscribe Mqtt.subscribe insert remove
start_log-up F i o in_fault out_fault =
    elim (Option-cases (token_error "mqtt subscribe timeout" i)) [
      | inr (e, failed) ↦
          ends_log F (IsAsked true i o) (wrap "subscribe ocpp/+/in" e)
            (start_log i o (first_link true)) (rw failed refl) (in_fault e failed)
      | inl heard ↦ elim (Option-cases (token_error "mqtt subscribe timeout" o)) [
        | inr (e, failed) ↦
            ends_log F (IsAsked true i o) (wrap "subscribe ocpp/+/out" e)
              (start_log i o (first_link true)) (rw (heard, failed) refl) (out_fault e failed)
        | inl told ↦
            logs F true i o (first_link true) online (rw (heard, told) refl) refl (λ _. heard)
              (λ _. told)
      ]
    ]

pub start_log-Ends :
    (F : Error → Type 0) (up : Bool) (i o : Token)
    → ((e : Error)
        → up ≡ true
        → token_error "mqtt subscribe timeout" i ≡ some e
        → F (wrap "canonlog start" (wrap "subscribe ocpp/+/in" e)))
    → ((e : Error)
        → up ≡ true
        → token_error "mqtt subscribe timeout" o ≡ some e
        → F (wrap "canonlog start" (wrap "subscribe ocpp/+/out" e)))
    → Ends (IsAsked up i o) F (with_state "canonlog start" (start_log i o (first_link up)))
start_log-Ends F true i o in_fault out_fault =
    start_log-up F i o (λ e. in_fault e refl) (λ e. out_fault e refl)
start_log-Ends F false i o in_fault out_fault = start_log-down F i o
