-- ===== src/Protocol/V201.antt =====
-- packages/ocpp-protocol/pkg/v201/protocol.go: the placeholder of OCPP 2.0.1.
use ocpp_simulator.Result.{err, not_implemented}
use ocpp_simulator.Protocol.{Protocol}

abbrev pub protocol_201 : Protocol
protocol_201 = record {
  version = "2.0.1";
  build_boot_notification = λ env input. err not_implemented;
  build_heartbeat = λ env. err not_implemented;
  build_status_notification = λ env input. err not_implemented;
  build_authorize = λ env input. err not_implemented;
  build_start_transaction = λ env input. err not_implemented;
  build_meter_values = λ env input. err not_implemented;
  build_stop_transaction = λ env input. err not_implemented;
  parse_remote_start_transaction_request = λ payload. err not_implemented;
  parse_remote_stop_transaction_request = λ payload. err not_implemented;
  parse_reset_request = λ payload. err not_implemented;
  parse_unlock_connector_request = λ payload. err not_implemented;
  parse_change_configuration_request = λ payload. err not_implemented;
  parse_get_configuration_request = λ payload. err not_implemented;
  parse_trigger_message_request = λ payload. err not_implemented;
  parse_change_availability_request = λ payload. err not_implemented;
  build_remote_start_transaction_response = λ status. err not_implemented;
  build_remote_stop_transaction_response = λ status. err not_implemented;
  build_reset_response = λ status. err not_implemented;
  build_unlock_connector_response = λ status. err not_implemented;
  build_change_configuration_response = λ status. err not_implemented;
  build_get_configuration_response = λ keys unknown. err not_implemented;
  build_trigger_message_response = λ status. err not_implemented;
  build_change_availability_response = λ status. err not_implemented;
}
