-- ===== src/Core/Api/Commands.antt =====
-- api/server.go: the commands of the central system, `POST /internal/csms/*`.
pub mod Accepted
pub mod Endpoints
pub mod Tests
use ocpp_simulator.Base.{ℤ, pos, String, ◌==◌, List, [], ◌∷◌, Option, none, if◌then◌else◌}
use ocpp_simulator.Result.{Result, ok, err, ◌>>=◌}
use ocpp_simulator.Json.{Json, str, Bytes, object}
use ocpp_simulator.Json.Unmarshal.{read_string, read_int, read_int_ptr, read_struct, Setter}
use ocpp_simulator.Schemas.{SchemaLibrary}
use ocpp_simulator.Protocol.V16.Requests.{read_strings}
use ocpp_simulator.Csms.{
  remote_start, remote_stop, reset, unlock_connector, change_configuration, get_configuration,
  trigger_message, change_availability,
}
use ocpp_simulator.Csms as Csms
use ocpp_simulator.Core.Api.{Server, Backend, Response, write_json, write_error, handle_request}

pub record RemoteStartReq : Type 0 where
  pub id_tag : String
  pub connector_id : Option ℤ

pub record RemoteStopReq : Type 0 where
  pub transaction_id : ℤ

pub record ResetReq : Type 0 where
  pub reset_type : String

pub record UnlockReq : Type 0 where
  pub connector_id : ℤ

pub record ChangeConfigReq : Type 0 where
  pub key : String
  pub value : String

pub record GetConfigReq : Type 0 where
  pub key : List String

pub record TriggerMsgReq : Type 0 where
  pub requested_message : String
  pub connector_id : Option ℤ

pub record ChangeAvailReq : Type 0 where
  pub connector_id : ℤ
  pub availability_type : String

abbrev pub remote_start_fields : List (Setter RemoteStartReq)
remote_start_fields =
    ("idTag", λ j r. do v ← read_string j r.id_tag; ok (record r { id_tag = v }))
    ∷ (
      "connectorId",
      λ j r. do v ← read_int_ptr j r.connector_id; ok (record r { connector_id = v }),
    )
    ∷ []

abbrev pub no_remote_start_req : RemoteStartReq
no_remote_start_req = record { id_tag = ""; connector_id = none }

abbrev pub remote_stop_fields : List (Setter RemoteStopReq)
remote_stop_fields =
    (
      "transactionId",
      λ j r. do v ← read_int j r.transaction_id; ok (record r { transaction_id = v }),
    )
    ∷ []

abbrev pub no_remote_stop_req : RemoteStopReq
no_remote_stop_req = record { transaction_id = pos 0 }

abbrev pub reset_fields : List (Setter ResetReq)
reset_fields =
    ("type", λ j r. do v ← read_string j r.reset_type; ok (record r { reset_type = v })) ∷ []

abbrev pub no_reset_req : ResetReq
no_reset_req = record { reset_type = "" }

abbrev pub unlock_connector_fields : List (Setter UnlockReq)
unlock_connector_fields =
    ("connectorId", λ j r. do v ← read_int j r.connector_id; ok (record r { connector_id = v }))
    ∷ []

abbrev pub no_unlock_connector_req : UnlockReq
no_unlock_connector_req = record { connector_id = pos 0 }

abbrev pub change_configuration_fields : List (Setter ChangeConfigReq)
change_configuration_fields =
    ("key", λ j r. do v ← read_string j r.key; ok (record r { key = v }))
    ∷ ("value", λ j r. do v ← read_string j r.value; ok (record r { value = v }))
    ∷ []

abbrev pub no_change_configuration_req : ChangeConfigReq
no_change_configuration_req = record { key = ""; value = "" }

abbrev pub get_configuration_fields : List (Setter GetConfigReq)
get_configuration_fields =
    ("key", λ j r. do v ← read_strings j r.key; ok (record r { key = v })) ∷ []

abbrev pub no_get_configuration_req : GetConfigReq
no_get_configuration_req = record { key = [] }

abbrev pub trigger_message_fields : List (Setter TriggerMsgReq)
trigger_message_fields =
    (
      "requestedMessage",
      λ j r. do v ← read_string j r.requested_message; ok (record r { requested_message = v }),
    )
    ∷ (
      "connectorId",
      λ j r. do v ← read_int_ptr j r.connector_id; ok (record r { connector_id = v }),
    )
    ∷ []

abbrev pub no_trigger_message_req : TriggerMsgReq
no_trigger_message_req = record { requested_message = ""; connector_id = none }

abbrev pub change_availability_fields : List (Setter ChangeAvailReq)
change_availability_fields =
    ("connectorId", λ j r. do v ← read_int j r.connector_id; ok (record r { connector_id = v }))
    ∷ (
      "type",
      λ j r. do v ← read_string j r.availability_type; ok (record r { availability_type = v }),
    )
    ∷ []

abbrev pub no_change_availability_req : ChangeAvailReq
no_change_availability_req = record { connector_id = pos 0; availability_type = "" }

module _ (library : SchemaLibrary) (env : Backend) where
  -- The answer to a command: 400 with its error, or 202.
  unfoldable pub queued : Result (Unit {0}) × Csms.Service → Server → Response × Server
  queued (err e, c) s = (write_error 400 (env.error_text e), record s { commands = c })
  queued (ok done, c) s =
      (write_json 202 (object (("status", str "queued") ∷ [])), record s { commands = c })

  unfoldable pub remote_start_request : String → RemoteStartReq → Server → Response × Server
  unfolding queued
  remote_start_request id req s =
      if req.id_tag == ""
      then (write_error 400 "idTag is required", s)
      else queued (remote_start library env.command id req.id_tag req.connector_id s.commands) s

  unfoldable pub handle_remote_start : Bytes → Server → Response × Server
  unfolding remote_start_request handle_request read_struct
  handle_remote_start =
      handle_request (read_struct remote_start_fields) no_remote_start_req remote_start_request

  unfoldable pub remote_stop_request : String → RemoteStopReq → Server → Response × Server
  unfolding queued
  remote_stop_request id req s =
      queued (remote_stop library env.command id req.transaction_id s.commands) s

  unfoldable pub handle_remote_stop : Bytes → Server → Response × Server
  unfolding remote_stop_request handle_request read_struct
  handle_remote_stop =
      handle_request (read_struct remote_stop_fields) no_remote_stop_req remote_stop_request

  unfoldable pub reset_request : String → ResetReq → Server → Response × Server
  unfolding queued
  reset_request id req s = queued (reset library env.command id req.reset_type s.commands) s

  unfoldable pub handle_reset : Bytes → Server → Response × Server
  unfolding reset_request handle_request read_struct
  handle_reset = handle_request (read_struct reset_fields) no_reset_req reset_request

  unfoldable pub unlock_connector_request : String → UnlockReq → Server → Response × Server
  unfolding queued
  unlock_connector_request id req s =
      queued (unlock_connector library env.command id req.connector_id s.commands) s

  unfoldable pub handle_unlock_connector : Bytes → Server → Response × Server
  unfolding unlock_connector_request handle_request read_struct
  handle_unlock_connector =
      handle_request (read_struct unlock_connector_fields) no_unlock_connector_req
        unlock_connector_request

  unfoldable pub change_configuration_request :
      String → ChangeConfigReq → Server → Response × Server
  unfolding queued
  change_configuration_request id req s =
      queued (change_configuration library env.command id req.key req.value s.commands) s

  unfoldable pub handle_change_configuration : Bytes → Server → Response × Server
  unfolding change_configuration_request handle_request read_struct
  handle_change_configuration =
      handle_request (read_struct change_configuration_fields) no_change_configuration_req
        change_configuration_request

  unfoldable pub get_configuration_request : String → GetConfigReq → Server → Response × Server
  unfolding queued
  get_configuration_request id req s =
      queued (get_configuration library env.command id req.key s.commands) s

  unfoldable pub handle_get_configuration : Bytes → Server → Response × Server
  unfolding get_configuration_request handle_request read_struct read_strings
  handle_get_configuration =
      handle_request (read_struct get_configuration_fields) no_get_configuration_req
        get_configuration_request

  unfoldable pub trigger_message_request : String → TriggerMsgReq → Server → Response × Server
  unfolding queued
  trigger_message_request id req s =
      queued
        (trigger_message library env.command id req.requested_message req.connector_id s.commands) s

  unfoldable pub handle_trigger_message : Bytes → Server → Response × Server
  unfolding trigger_message_request handle_request read_struct
  handle_trigger_message =
      handle_request (read_struct trigger_message_fields) no_trigger_message_req
        trigger_message_request

  unfoldable pub change_availability_request : String → ChangeAvailReq → Server → Response × Server
  unfolding queued
  change_availability_request id req s =
      queued
        (change_availability library env.command id req.connector_id req.availability_type
          s.commands)
        s

  unfoldable pub handle_change_availability : Bytes → Server → Response × Server
  unfolding change_availability_request handle_request read_struct
  handle_change_availability =
      handle_request (read_struct change_availability_fields) no_change_availability_req
        change_availability_request
