-- ===== src/Protocol/V16.antt =====
-- packages/ocpp-protocol/pkg/v16/protocol.go: the CALLs that a charge point builds.
pub mod Requests
pub mod Responses
use ocpp_simulator.Base.{String, ◌==◌, ℤ, List, [], ◌∷◌, ◌++◌, Option, none, some, if◌then◌else◌}
use ocpp_simulator.Result.{Result, ok}
use ocpp_simulator.Json.{Json, num, str, array, object}
use ocpp_simulator.Message.{Message}
use ocpp_simulator.Codec.{build_call}
use ocpp_simulator.Protocol.{
  Surroundings, BootNotificationInput, StatusNotificationInput, AuthorizeInput,
  StartTransactionInput, MeterValuesInput, MeterValue, SampledValue, StopTransactionInput,
}

-- The tag `omitempty`, on a string and on a pointer.
abbrev pub omit_empty : String → String → List (String × Json)
omit_empty key s = if s == "" then [] else (key, str s) ∷ []

abbrev pub omit_nil : String → Option ℤ → List (String × Json)
omit_nil key none = []
omit_nil key (some n) = (key, num n) ∷ []

unfoldable pub build_boot_notification : Surroundings → BootNotificationInput → Result Message
unfolding build_call
build_boot_notification env input = ok (
    build_call env.fresh_id "BootNotification" (
      object (
        ("chargePointVendor", str input.charge_point_vendor)
        ∷ ("chargePointModel", str input.charge_point_model)
        ∷ [])))

unfoldable pub build_heartbeat : Surroundings → Result Message
unfolding build_call
build_heartbeat env = ok (build_call env.fresh_id "Heartbeat" (object []))

unfoldable pub build_status_notification : Surroundings → StatusNotificationInput → Result Message
unfolding build_call
build_status_notification env input = ok (
    build_call env.fresh_id "StatusNotification" (
      object (
        ("connectorId", num input.connector_id)
        ∷ ("errorCode", str input.error_code)
        ∷ ("status", str input.status)
        ∷ omit_empty "timestamp" env.now)))

unfoldable pub build_authorize : Surroundings → AuthorizeInput → Result Message
unfolding build_call
build_authorize env input =
    ok (build_call env.fresh_id "Authorize" (object (("idTag", str input.id_tag) ∷ [])))

unfoldable pub build_start_transaction : Surroundings → StartTransactionInput → Result Message
unfolding build_call
build_start_transaction env input = ok (
    build_call env.fresh_id "StartTransaction" (
      object (
        ("connectorId", num input.connector_id)
        ∷ ("idTag", str input.id_tag)
        ∷ ("meterStart", num input.meter_start)
        ∷ ("timestamp", str input.timestamp)
        ∷ [])))

abbrev sampled_value_json : SampledValue → Json
sampled_value_json s =
    object
      ((("value", str s.value) ∷ omit_empty "measurand" s.measurand) ++ omit_empty "unit" s.unit)

sampled_values : List SampledValue → List Json
sampled_values [] = []
sampled_values (s ∷ rest) = sampled_value_json s ∷ sampled_values rest

meter_values_json : List MeterValue → List Json
unfolding sampled_values
meter_values_json [] = []
meter_values_json (m ∷ rest) =
    object (
      ("timestamp", str m.timestamp)
      ∷ ("sampledValue", array (sampled_values m.sampled_value))
      ∷ [])
    ∷ meter_values_json rest

unfoldable pub build_meter_values : Surroundings → MeterValuesInput → Result Message
unfolding build_call meter_values_json
build_meter_values env input = ok (
    build_call env.fresh_id "MeterValues" (
      object (
        (("connectorId", num input.connector_id) ∷ omit_nil "transactionId" input.transaction_id)
        ++ (("meterValue", array (meter_values_json input.meter_values)) ∷ []))))

unfoldable pub build_stop_transaction : Surroundings → StopTransactionInput → Result Message
unfolding build_call
build_stop_transaction env input = ok (
    build_call env.fresh_id "StopTransaction" (
      object (
        (("transactionId", num input.transaction_id) ∷ omit_empty "idTag" input.id_tag)
        ++ (("meterStop", num input.meter_stop)
            ∷ ("timestamp", str input.timestamp)
            ∷ omit_empty "reason" input.reason))))
