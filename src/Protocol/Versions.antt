-- ===== src/Protocol/Versions.antt =====
-- The 1.6J protocol as a value of the interface (packages/ocpp-protocol/pkg/v16/protocol.go), and
-- the Factory (packages/ocpp-protocol/pkg/protocol/protocol.go).
mod Tests
use ocpp_simulator.Base.{◌≡◌, ◌≢◌, refl, String, ◌==◌, if◌then◌else◌, some}
use ocpp_simulator.Base.Assoc.{lookup-insert}
use ocpp_simulator.Result.{Result, ok}
use ocpp_simulator.Json.{Json, Bytes}
use ocpp_simulator.Message.{Message}
use ocpp_simulator.Codec.{encode, decode, build_call}
use ocpp_simulator.Codec.Shape.{is_call}
use ocpp_simulator.Codec.RoundTrip.{decode-encode}
use ocpp_simulator.Protocol.{
  Protocol, Surroundings, BootNotificationInput, StatusNotificationInput, AuthorizeInput,
  StartTransactionInput, MeterValuesInput, StopTransactionInput, Factory, register, create_protocol,
}
use ocpp_simulator.Protocol.V16 as Calls
use ocpp_simulator.Protocol.V16.Requests as Requests

abbrev pub protocol_16 : Protocol
protocol_16 = record {
  version = "1.6J";
  build_boot_notification = Calls.build_boot_notification;
  build_heartbeat = Calls.build_heartbeat;
  build_status_notification = Calls.build_status_notification;
  build_authorize = Calls.build_authorize;
  build_start_transaction = Calls.build_start_transaction;
  build_meter_values = Calls.build_meter_values;
  build_stop_transaction = Calls.build_stop_transaction;
  parse_remote_start_transaction_request = Requests.parse_remote_start_transaction_request;
  parse_remote_stop_transaction_request = Requests.parse_remote_stop_transaction_request;
  parse_reset_request = Requests.parse_reset_request;
  parse_unlock_connector_request = Requests.parse_unlock_connector_request;
  parse_change_configuration_request = Requests.parse_change_configuration_request;
  parse_get_configuration_request = Requests.parse_get_configuration_request;
  parse_trigger_message_request = Requests.parse_trigger_message_request;
  parse_change_availability_request = Requests.parse_change_availability_request;
  build_remote_start_transaction_response = Requests.build_remote_start_transaction_response;
  build_remote_stop_transaction_response = Requests.build_remote_stop_transaction_response;
  build_reset_response = Requests.build_reset_response;
  build_unlock_connector_response = Requests.build_unlock_connector_response;
  build_change_configuration_response = Requests.build_change_configuration_response;
  build_get_configuration_response = Requests.build_get_configuration_response;
  build_trigger_message_response = Requests.build_trigger_message_response;
  build_change_availability_response = Requests.build_change_availability_response;
}

-- After a registration the factory answers that protocol under its version, and any other version
-- as before.
pub create_protocol-register :
    (p : Protocol) (version : String) (f : Factory)
    → create_protocol version (register p f)
      ≡ (if p.version == version then some p else create_protocol version f)
unfolding register create_protocol
create_protocol-register p version f = lookup-insert p.version version p f.protocols

-- A CALL that the 1.6J protocol builds.
pub data Input : Type 0 where
  boot_notification : BootNotificationInput → Input
  heartbeat : Input
  status_notification : StatusNotificationInput → Input
  authorize : AuthorizeInput → Input
  start_transaction : StartTransactionInput → Input
  meter_values : MeterValuesInput → Input
  stop_transaction : StopTransactionInput → Input

unfoldable pub build : Protocol → Surroundings → Input → Result Message
build p env (boot_notification i) = p.build_boot_notification env i
build p env heartbeat = p.build_heartbeat env
build p env (status_notification i) = p.build_status_notification env i
build p env (authorize i) = p.build_authorize env i
build p env (start_transaction i) = p.build_start_transaction env i
build p env (meter_values i) = p.build_meter_values env i
build p env (stop_transaction i) = p.build_stop_transaction env i
