-- ===== src/Protocol/V16/Requests.antt =====
-- packages/ocpp-protocol/pkg/v16/protocol.go: the requests of the central system, as a charge
-- point parses them, and the payloads of its answers. A `null` among the elements of a list under
-- a repeated key, for which encoding/json keeps the older element, is read as "".
use ocpp_simulator.Base.{
  pos, is_nonpositive, String, ◌==◌, not, ◌&&◌, List, [], ◌∷◌, ◌++◌, Option, none, some,
}
use ocpp_simulator.Result.{Result, ok, err, msg, quoted, json_type, wrapping, guard, ◌>>=◌, ◌>>◌}
use ocpp_simulator.Json.{Json, null, bool, str, arr, Bytes, json, no_bytes, array, object, elems}
use ocpp_simulator.Json.Unmarshal.{
  unmarshal, read_string, read_int, read_int_ptr, read_raw, read_struct,
}
use ocpp_simulator.Protocol.{
  RemoteStartTransactionRequest, RemoteStopTransactionRequest, ResetRequest, UnlockConnectorRequest,
  ChangeConfigurationRequest, GetConfigurationRequest, TriggerMessageRequest,
  ChangeAvailabilityRequest, ConfigurationKey,
}

unfoldable pub parse_remote_start_transaction_request : Bytes → Result RemoteStartTransactionRequest
unfolding read_struct
parse_remote_start_transaction_request payload = do
  req ← wrapping "parse RemoteStartTransaction.req" (
      unmarshal
        (read_struct (
          ("idTag", λ j r. do v ← read_string j r.id_tag; ok (record r { id_tag = v }))
          ∷ (
            "connectorId",
            λ j r. do v ← read_int_ptr j r.connector_id; ok (record r { connector_id = v }),
          )
          ∷ (
            "chargingProfile",
            λ j r. do v ← read_raw j r.charging_profile; ok (record r { charging_profile = v }),
          )
          ∷ []))
        payload (record { id_tag = ""; connector_id = none; charging_profile = no_bytes }))
  guard (not (req.id_tag == "")) (msg "RemoteStartTransaction: idTag is required")
  ok req

unfoldable pub parse_remote_stop_transaction_request : Bytes → Result RemoteStopTransactionRequest
unfolding read_struct
parse_remote_stop_transaction_request payload = wrapping "parse RemoteStopTransaction.req" (
    unmarshal
      (read_struct (
        (
          "transactionId",
          λ j r. do v ← read_int j r.transaction_id; ok (record r { transaction_id = v }),
        )
        ∷ []))
      payload (record { transaction_id = pos 0 }))

unfoldable pub parse_reset_request : Bytes → Result ResetRequest
unfolding read_struct
parse_reset_request payload = do
  req ← wrapping "parse Reset.req" (
      unmarshal
        (read_struct (
          ("type", λ j r. do v ← read_string j r.reset_type; ok (record r { reset_type = v }))
          ∷ []))
        payload (record { reset_type = "" }))
  guard (not (not (req.reset_type == "Hard") && not (req.reset_type == "Soft")))
      (quoted "Reset: invalid type" req.reset_type)
  ok req

unfoldable pub parse_unlock_connector_request : Bytes → Result UnlockConnectorRequest
unfolding read_struct
parse_unlock_connector_request payload = do
  req ← wrapping "parse UnlockConnector.req" (
      unmarshal
        (read_struct (
          (
            "connectorId",
            λ j r. do v ← read_int j r.connector_id; ok (record r { connector_id = v }),
          )
          ∷ []))
        payload (record { connector_id = pos 0 }))
  guard (not (is_nonpositive req.connector_id)) (msg "UnlockConnector: connectorId must be > 0")
  ok req

unfoldable pub parse_change_configuration_request : Bytes → Result ChangeConfigurationRequest
unfolding read_struct
parse_change_configuration_request payload = do
  req ← wrapping "parse ChangeConfiguration.req" (
      unmarshal
        (read_struct (
          ("key", λ j r. do v ← read_string j r.key; ok (record r { key = v }))
          ∷ ("value", λ j r. do v ← read_string j r.value; ok (record r { value = v }))
          ∷ []))
        payload (record { key = ""; value = "" }))
  guard (not (req.key == "")) (msg "ChangeConfiguration: key is required")
  ok req

-- json.Unmarshal into a []string
read_all_strings : List Json → Result (List String)
read_all_strings [] = ok []
read_all_strings (j ∷ js) = do s ← read_string j ""; rest ← read_all_strings js; ok (s ∷ rest)

unfoldable pub read_strings : Json → List String → Result (List String)
unfolding read_all_strings
read_strings null old = ok []
read_strings (arr js) old = read_all_strings (elems js)
read_strings _ old = err json_type

unfoldable pub parse_get_configuration_request : Bytes → Result GetConfigurationRequest
unfolding read_struct read_strings
parse_get_configuration_request payload = wrapping "parse GetConfiguration.req" (
    unmarshal
      (read_struct (("key", λ j r. do v ← read_strings j r.key; ok (record r { key = v })) ∷ []))
      payload (record { key = [] }))

unfoldable pub parse_trigger_message_request : Bytes → Result TriggerMessageRequest
unfolding read_struct
parse_trigger_message_request payload = do
  req ← wrapping "parse TriggerMessage.req" (
      unmarshal
        (read_struct (
          (
            "requestedMessage",
            λ j r. do
              v ← read_string j r.requested_message
              ok (record r { requested_message = v }),
          )
          ∷ (
            "connectorId",
            λ j r. do v ← read_int_ptr j r.connector_id; ok (record r { connector_id = v }),
          )
          ∷ []))
        payload (record { requested_message = ""; connector_id = none }))
  guard (not (req.requested_message == "")) (msg "TriggerMessage: requestedMessage is required")
  ok req

unfoldable pub parse_change_availability_request : Bytes → Result ChangeAvailabilityRequest
unfolding read_struct
parse_change_availability_request payload = do
  req ← wrapping "parse ChangeAvailability.req" (
      unmarshal
        (read_struct (
          (
            "connectorId",
            λ j r. do v ← read_int j r.connector_id; ok (record r { connector_id = v }),
          )
          ∷ (
            "type",
            λ j r. do
              v ← read_string j r.availability_type
              ok (record r { availability_type = v }),
          )
          ∷ []))
        payload (record { connector_id = pos 0; availability_type = "" }))
  guard
      (not (
        not (req.availability_type == "Operative") && not (req.availability_type == "Inoperative")))
      (quoted "ChangeAvailability: invalid type" req.availability_type)
  ok req

-- The answers. All but one are a status alone.
status_response : String → Result Bytes
status_response status = ok (json (object (("status", str status) ∷ [])))

unfoldable pub build_remote_start_transaction_response : String → Result Bytes
unfolding status_response
build_remote_start_transaction_response status = status_response status

unfoldable pub build_remote_stop_transaction_response : String → Result Bytes
unfolding status_response
build_remote_stop_transaction_response status = status_response status

unfoldable pub build_reset_response : String → Result Bytes
unfolding status_response
build_reset_response status = status_response status

unfoldable pub build_unlock_connector_response : String → Result Bytes
unfolding status_response
build_unlock_connector_response status = status_response status

unfoldable pub build_change_configuration_response : String → Result Bytes
unfolding status_response
build_change_configuration_response status = status_response status

unfoldable pub build_trigger_message_response : String → Result Bytes
unfolding status_response
build_trigger_message_response status = status_response status

unfoldable pub build_change_availability_response : String → Result Bytes
unfolding status_response
build_change_availability_response status = status_response status

abbrev value_field : Option String → List (String × Json)
value_field none = []
value_field (some v) = ("value", str v) ∷ []

configuration_key_json : ConfigurationKey → Json
configuration_key_json k =
    object (("key", str k.key) ∷ ("readonly", bool k.readonly) ∷ value_field k.value)

key_items : List ConfigurationKey → List Json
unfolding configuration_key_json
key_items [] = []
key_items (k ∷ ks) = configuration_key_json k ∷ key_items ks

unfoldable pub texts : List String → List Json
texts [] = []
texts (s ∷ ss) = str s ∷ texts ss

-- The tag `omitempty` on a slice.
abbrev pub omit_no_items : String → List Json → List (String × Json)
omit_no_items key [] = []
omit_no_items key js = (key, array js) ∷ []

unfoldable pub build_get_configuration_response : List ConfigurationKey → List String → Result Bytes
unfolding key_items texts
build_get_configuration_response config_keys unknown_keys = ok (
    json (
      object (
        omit_no_items "configurationKey" (key_items config_keys)
        ++ omit_no_items "unknownKey" (texts unknown_keys))))
