-- ===== src/Processor/Broker.antt =====
-- paho_broker.go of the message processor: the operations of Mqtt, with its error without a link.
use ocpp_simulator.Base.{String, Option}
use ocpp_simulator.Base.Assoc.{Assoc}
use ocpp_simulator.Result.{Error, Result, msg}
use ocpp_simulator.Json.{Bytes}
use ocpp_simulator.Mqtt as Mqtt
use ocpp_simulator.Mqtt.{PahoBroker, Token, Unsubscribe}

module _ {H : Type 0} where
  unfoldable pub connect : (Assoc H → Assoc H) → Token → PahoBroker H → Option Error × PahoBroker H
  connect visit token b = Mqtt.connect visit token b

  unfoldable pub disconnect : PahoBroker H → PahoBroker H
  disconnect b = Mqtt.disconnect b

  unfoldable pub publish : String → Bytes → Token → PahoBroker H → Option Error × PahoBroker H
  publish topic payload token b = Mqtt.publish (msg "mqtt not connected") topic payload token b

  unfoldable pub subscribe : String → H → Token → PahoBroker H → Result Unsubscribe × PahoBroker H
  subscribe topic handler token b = Mqtt.subscribe topic handler token b

  unfoldable pub unsubscribe_once : Unsubscribe → PahoBroker H → Unsubscribe × PahoBroker H
  unsubscribe_once u b = Mqtt.unsubscribe_once u b
