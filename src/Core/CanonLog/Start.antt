-- ===== src/Core/CanonLog/Start.antt =====
-- canonlog/service.go: Start, with the closure that it returns, over the broker of ocpp-core.
use ocpp_simulator.Base.{◌≡◌, refl, String, false, List, none, some, ◌⊎◌, inl, inr}
use ocpp_simulator.Base.Assoc.{lookup, remove, lookup-insert, lookup-remove}
use ocpp_simulator.Result.{Error, Result, ok, err, wrap}
use ocpp_simulator.Result.Laws.{ok_inj}
use ocpp_simulator.Json.{Bytes}
use ocpp_simulator.Mqtt.{PahoBroker, Token, Unsubscribe}
use ocpp_simulator.Mqtt.Subscribed.{
  subscribe-IsAnswer, subscribe-handlers, unsubscribe_once-handlers,
}
use ocpp_simulator.Core.Store.{Call}
use ocpp_simulator.Core.MessageLogs.{MessageLog}
use ocpp_simulator.Core.Broker.{subscribe, unsubscribe_once}
use ocpp_simulator.Core.CanonLog.{persist}

-- What a message on a topic does to the table of logs, given what its statement meets.
abbrev pub Callback : Type 0
Callback = Call → String → Bytes → List MessageLog → List MessageLog

abbrev pub inbound_topic_pattern : String
inbound_topic_pattern = "ocpp/+/in"

abbrev pub outbound_topic_pattern : String
outbound_topic_pattern = "ocpp/+/out"

-- The closures of the two subscriptions.
abbrev pub on_frame : String → Callback
on_frame direction call topic payload logs = persist call topic direction payload logs

abbrev pub LogUnsubscribe : Type 0
LogUnsubscribe = Unsubscribe × Unsubscribe

unfoldable pub subscribed_outbound :
    Unsubscribe
    → Result Unsubscribe × PahoBroker Callback
    → Result LogUnsubscribe × PahoBroker Callback
unfolding unsubscribe_once
subscribed_outbound unsub_in (err e, b) =
    (err (wrap "subscribe ocpp/+/out" e), (unsubscribe_once unsub_in b).1)
subscribed_outbound unsub_in (ok unsub_out, b) = (ok (unsub_in, unsub_out), b)

unfoldable pub subscribed_inbound :
    Token → Result Unsubscribe × PahoBroker Callback → Result LogUnsubscribe × PahoBroker Callback
unfolding subscribed_outbound subscribe
subscribed_inbound out_token (err e, b) = (err (wrap "subscribe ocpp/+/in" e), b)
subscribed_inbound out_token (ok unsub_in, b) =
    subscribed_outbound unsub_in
      (subscribe outbound_topic_pattern (on_frame "outbound") out_token b)

-- Service.Start
unfoldable pub start_log :
    Token → Token → PahoBroker Callback → Result LogUnsubscribe × PahoBroker Callback
unfolding subscribed_inbound subscribe
start_log in_token out_token b =
    subscribed_inbound out_token (subscribe inbound_topic_pattern (on_frame "inbound") in_token b)

-- The closure that Start returns
unfoldable pub stop_log : LogUnsubscribe → PahoBroker Callback → PahoBroker Callback
unfolding unsubscribe_once
stop_log (unsub_in, unsub_out) b = (unsubscribe_once unsub_out (unsubscribe_once unsub_in b).1).1

abbrev Log : Type 0
Log = Result LogUnsubscribe × PahoBroker Callback

-- Each direction has its handler, until the closure runs.
pub record IsLogging (r : Log) : Type 0 where
  pub unsubscribe : LogUnsubscribe
  pub answered : r.0 ≡ ok unsubscribe
  pub inbound : lookup inbound_topic_pattern r.1.handlers ≡ some (on_frame "inbound")
  pub outbound : lookup outbound_topic_pattern r.1.handlers ≡ some (on_frame "outbound")
  pub inbound_stopped : lookup inbound_topic_pattern (stop_log unsubscribe r.1).handlers ≡ none
  pub outbound_stopped : lookup outbound_topic_pattern (stop_log unsubscribe r.1).handlers ≡ none

-- One direction has its handler, with no closure to withdraw it: the inbound one where its own
-- subscription failed, the outbound one where that did, and then not the inbound one.
pub record IsLeftOver (r : Log) : Type 0 where
  pub error : Error
  pub answered : r.0 ≡ err error
  pub cause : Error
  pub left :
      ((error ≡ wrap "subscribe ocpp/+/in" cause)
        × (lookup inbound_topic_pattern r.1.handlers ≡ some (on_frame "inbound")))
      ⊎ ((error ≡ wrap "subscribe ocpp/+/out" cause)
          × (lookup inbound_topic_pattern r.1.handlers ≡ none)
          × (lookup outbound_topic_pattern r.1.handlers ≡ some (on_frame "outbound")))

abbrev fresh : String → Unsubscribe
fresh topic = record { topic = topic; done = false }

abbrev Answers : String → Result Unsubscribe → Type 0
Answers topic r = ((e : Error) × (r ≡ err e)) ⊎ (r ≡ ok (fresh topic))

stop_log-handlers :
    (b : PahoBroker Callback)
    → (stop_log (fresh inbound_topic_pattern, fresh outbound_topic_pattern) b).handlers
      ≡ remove outbound_topic_pattern (remove inbound_topic_pattern b.handlers)
unfolding stop_log unsubscribe_once
stop_log-handlers b =
    rw
      (
        unsubscribe_once-handlers (fresh outbound_topic_pattern)
            (unsubscribe_once (fresh inbound_topic_pattern) b).1 refl,
        unsubscribe_once-handlers (fresh inbound_topic_pattern) b refl,
      )
      refl

subscribed_outbound-cases :
    (answer : Result Unsubscribe) (b : PahoBroker Callback)
    → Answers outbound_topic_pattern answer
    → lookup inbound_topic_pattern b.handlers ≡ some (on_frame "inbound")
    → lookup outbound_topic_pattern b.handlers ≡ some (on_frame "outbound")
    → IsLogging (subscribed_outbound (fresh inbound_topic_pattern) (answer, b))
      ⊎ IsLeftOver (subscribed_outbound (fresh inbound_topic_pattern) (answer, b))
unfolding subscribed_outbound unsubscribe_once
subscribed_outbound-cases (err e) b _ inbound outbound =
    let table = unsubscribe_once-handlers (fresh inbound_topic_pattern) b refl in
    inr (record {
      error = _;
      answered = refl;
      cause = e;
      left = inr (refl, rw (table, lookup-remove) refl, rw (table, lookup-remove) outbound);
    })
subscribed_outbound-cases (ok u) b (inl (e, failed)) inbound outbound = cc
subscribed_outbound-cases (ok u) b (inr new) inbound outbound = rw (ok_inj new) (
    inl (record {
      unsubscribe = (fresh inbound_topic_pattern, fresh outbound_topic_pattern);
      answered = refl;
      inbound = inbound;
      outbound = outbound;
      inbound_stopped = rw (stop_log-handlers b, lookup-remove, lookup-remove) refl;
      outbound_stopped = rw (stop_log-handlers b, lookup-remove) refl;
    }))

subscribed_inbound-cases :
    (out_token : Token) (answer : Result Unsubscribe) (b : PahoBroker Callback)
    → Answers inbound_topic_pattern answer
    → lookup inbound_topic_pattern b.handlers ≡ some (on_frame "inbound")
    → IsLogging (subscribed_inbound out_token (answer, b))
      ⊎ IsLeftOver (subscribed_inbound out_token (answer, b))
unfolding subscribed_inbound subscribe
subscribed_inbound-cases out_token (err e) b _ inbound =
    inr (record { error = _; answered = refl; cause = e; left = inl (refl, inbound) })
subscribed_inbound-cases out_token (ok u) b (inl (e, failed)) inbound = cc
subscribed_inbound-cases out_token (ok u) b (inr new) inbound =
    let answer = subscribe outbound_topic_pattern (on_frame "outbound") out_token b in
    let table = subscribe-handlers outbound_topic_pattern (on_frame "outbound") out_token b in
    rw (ok_inj new) (
      subscribed_outbound-cases answer.0 answer.1
        (subscribe-IsAnswer outbound_topic_pattern (on_frame "outbound") out_token b)
        (rw (table, lookup-insert) inbound) (rw (table, lookup-insert) refl))

-- Start answers a closure, with a handler for each direction until the closure runs; or an error,
-- and one direction has its handler all the same: the inbound one where the error is of its
-- subscription; the outbound one, and not the inbound one, where the error is of that.
pub start_log-cases :
    (in_token out_token : Token) (b : PahoBroker Callback)
    → IsLogging (start_log in_token out_token b) ⊎ IsLeftOver (start_log in_token out_token b)
unfolding start_log subscribe
start_log-cases in_token out_token b =
    let answer = subscribe inbound_topic_pattern (on_frame "inbound") in_token b in
    let table = subscribe-handlers inbound_topic_pattern (on_frame "inbound") in_token b in
    subscribed_inbound-cases out_token answer.0 answer.1
      (subscribe-IsAnswer inbound_topic_pattern (on_frame "inbound") in_token b)
      (rw (table, lookup-insert) refl)
