-- ===== src/Protocol/Versions/Tests.antt =====
-- Both versions in a factory, a built CALL, and answers that are parsed.
use ocpp_simulator.Base.{◌≡◌, refl, pos, [], ◌∷◌}
use ocpp_simulator.Result.{ok, err, msg, not_implemented}
use ocpp_simulator.Json.{num, str, json, object}
use ocpp_simulator.Protocol.{Surroundings, Factory, register}
use ocpp_simulator.Protocol.V16.Responses.{parse_start_transaction_response}
use ocpp_simulator.Protocol.V16.Requests.{parse_unlock_connector_request}
use ocpp_simulator.Protocol.V201.{protocol_201}
use ocpp_simulator.Protocol.Versions.{protocol_16, Input, start_transaction, build}

abbrev one_version : Factory
one_version = register protocol_16 (record { protocols = [] })

abbrev surroundings : Surroundings
surroundings = record { fresh_id = "7"; now = "2026-01-01T00:00:00Z" }

abbrev start_input : Input
start_input = start_transaction (record {
  connector_id = pos 1;
  id_tag = "TAG";
  meter_start = pos 0;
  timestamp = "2026-01-01T00:00:00Z";
})

build-protocol_201 : build protocol_201 surroundings start_input ≡ err not_implemented
unfolding build
build-protocol_201 = refl

parse_start_transaction_response-accepted :
    parse_start_transaction_response (
      json (
        object (
          ("transactionId", num (pos 3))
          ∷ ("idTagInfo", object (("status", str "Accepted") ∷ []))
          ∷ [])))
    ≡ ok (record { transaction_id = pos 3; id_tag_info = record { status = "Accepted" } })
unfolding parse_start_transaction_response
parse_start_transaction_response-accepted = refl

parse_unlock_connector_request-zero :
    parse_unlock_connector_request (json (object (("connectorId", num (pos 0)) ∷ [])))
    ≡ err (msg "UnlockConnector: connectorId must be > 0")
unfolding parse_unlock_connector_request
parse_unlock_connector_request-zero = refl
