-- ===== src/Boot/CoreService/Ended.antt =====
-- How ocpp-core ends: `defer stopLog()` runs behind `b.Disconnect()`.
use ocpp_simulator.Base.{◌≡◌, ap, ◌∙◌, [], ◌∷◌, ◌++◌, none, arith, if◌then◌else◌}
use ocpp_simulator.Base.Assoc.{lookup}
use ocpp_simulator.Result.{ok}
use ocpp_simulator.Result.Laws.{ok_inj}
use ocpp_simulator.Mqtt.{Request, hang_up, PahoBroker}
use ocpp_simulator.Mqtt as Mqtt
use ocpp_simulator.Core.Broker.{disconnect, unsubscribe_once}
use ocpp_simulator.Core.CanonLog.Start.{
  Callback, LogUnsubscribe, stop_log, inbound_topic_pattern, outbound_topic_pattern, IsLogging,
}
use ocpp_simulator.Boot.CoreService.{Process, shut_down}

stop_log-disconnect :
    (u : LogUnsubscribe) (b : PahoBroker Callback)
    → ((stop_log u (disconnect b)).handlers ≡ (stop_log u b).handlers)
      × ((stop_log u (disconnect b)).requests
          ≡ (if b.is_connected then b.requests ++ (hang_up ∷ []) else b.requests))
unfolding stop_log disconnect Mqtt.disconnect unsubscribe_once Mqtt.unsubscribe_once
stop_log-disconnect u b = ground arith

-- A process whose log runs leaves no handler of a direction in the table when it ends; of the MQTT
-- client it asks to hang up, where the link is up, and nothing else: no subscription is withdrawn.
pub shut_down-requests :
    (p : Process)
    → IsLogging (ok p.log_unsubscribe, p.broker)
    → (lookup inbound_topic_pattern (shut_down p).broker.handlers ≡ none)
      × (lookup outbound_topic_pattern (shut_down p).broker.handlers ≡ none)
      × ((shut_down p).broker.requests ≡ (
          if p.broker.is_connected then p.broker.requests ++ (hang_up ∷ []) else p.broker.requests))
unfolding shut_down
shut_down-requests p logging =
    let (table, asked) = stop_log-disconnect p.log_unsubscribe p.broker in
    let same : p.log_unsubscribe ≡ logging.unsubscribe = ok_inj logging.answered in
    (
      ap (lookup inbound_topic_pattern) table
          ∙ ap (λ u. lookup inbound_topic_pattern (stop_log u p.broker).handlers) same
          ∙ logging.inbound_stopped,
      ap (lookup outbound_topic_pattern) table
          ∙ ap (λ u. lookup outbound_topic_pattern (stop_log u p.broker).handlers) same
          ∙ logging.outbound_stopped,
      asked,
    )
