-- ===== src/Protocol.antt =====
-- packages/ocpp-protocol/pkg/protocol/protocol.go: the inputs and requests, the interface of a
-- protocol version, and the Factory. A `time.Time` is its text in RFC 3339.
pub mod V16
pub mod V201
pub mod Versions
use ocpp_simulator.Base.{ℤ, String, Bool, List, Option}
use ocpp_simulator.Base.Assoc.{Assoc, lookup, insert}
use ocpp_simulator.Result.{Result}
use ocpp_simulator.Json.{Bytes}
use ocpp_simulator.Message.{Message}

pub record BootNotificationInput : Type 0 where
  pub charge_point_vendor : String
  pub charge_point_model : String

pub record StatusNotificationInput : Type 0 where
  pub connector_id : ℤ
  pub status : String
  pub error_code : String

pub record AuthorizeInput : Type 0 where
  pub id_tag : String

pub record StartTransactionInput : Type 0 where
  pub connector_id : ℤ
  pub id_tag : String
  pub meter_start : ℤ
  pub timestamp : String

pub record SampledValue : Type 0 where
  pub value : String
  pub measurand : String
  pub unit : String

pub record MeterValue : Type 0 where
  pub timestamp : String
  pub sampled_value : List SampledValue

pub record MeterValuesInput : Type 0 where
  pub connector_id : ℤ
  pub transaction_id : Option ℤ
  pub meter_values : List MeterValue

pub record StopTransactionInput : Type 0 where
  pub transaction_id : ℤ
  pub id_tag : String
  pub meter_stop : ℤ
  pub timestamp : String
  pub reason : String

pub record RemoteStartTransactionRequest : Type 0 where
  pub id_tag : String
  pub connector_id : Option ℤ
  pub charging_profile : Bytes

pub record RemoteStopTransactionRequest : Type 0 where
  pub transaction_id : ℤ

pub record ResetRequest : Type 0 where
  pub reset_type : String

pub record UnlockConnectorRequest : Type 0 where
  pub connector_id : ℤ

pub record ChangeConfigurationRequest : Type 0 where
  pub key : String
  pub value : String

pub record GetConfigurationRequest : Type 0 where
  pub key : List String

pub record TriggerMessageRequest : Type 0 where
  pub requested_message : String
  pub connector_id : Option ℤ

pub record ChangeAvailabilityRequest : Type 0 where
  pub connector_id : ℤ
  pub availability_type : String

pub record ConfigurationKey : Type 0 where
  pub key : String
  pub readonly : Bool
  pub value : Option String

-- What message.GenerateUniqueID and time.Now answer to a call.
pub record Surroundings : Type 0 where
  pub fresh_id : String
  pub now : String

-- The interface of a version.
pub record Protocol : Type 0 where
  pub version : String
  pub build_boot_notification : Surroundings → BootNotificationInput → Result Message
  pub build_heartbeat : Surroundings → Result Message
  pub build_status_notification : Surroundings → StatusNotificationInput → Result Message
  pub build_authorize : Surroundings → AuthorizeInput → Result Message
  pub build_start_transaction : Surroundings → StartTransactionInput → Result Message
  pub build_meter_values : Surroundings → MeterValuesInput → Result Message
  pub build_stop_transaction : Surroundings → StopTransactionInput → Result Message
  pub parse_remote_start_transaction_request : Bytes → Result RemoteStartTransactionRequest
  pub parse_remote_stop_transaction_request : Bytes → Result RemoteStopTransactionRequest
  pub parse_reset_request : Bytes → Result ResetRequest
  pub parse_unlock_connector_request : Bytes → Result UnlockConnectorRequest
  pub parse_change_configuration_request : Bytes → Result ChangeConfigurationRequest
  pub parse_get_configuration_request : Bytes → Result GetConfigurationRequest
  pub parse_trigger_message_request : Bytes → Result TriggerMessageRequest
  pub parse_change_availability_request : Bytes → Result ChangeAvailabilityRequest
  pub build_remote_start_transaction_response : String → Result Bytes
  pub build_remote_stop_transaction_response : String → Result Bytes
  pub build_reset_response : String → Result Bytes
  pub build_unlock_connector_response : String → Result Bytes
  pub build_change_configuration_response : String → Result Bytes
  pub build_get_configuration_response : List ConfigurationKey → List String → Result Bytes
  pub build_trigger_message_response : String → Result Bytes
  pub build_change_availability_response : String → Result Bytes

-- Factory
pub record Factory : Type 0 where
  pub protocols : Assoc Protocol

unfoldable pub register : Protocol → Factory → Factory
unfolding insert
register p f = record f { protocols = insert p.version p f.protocols }

unfoldable pub create_protocol : String → Factory → Option Protocol
unfolding lookup
create_protocol version f = lookup version f.protocols
