-- ===== src/Core/Api/Commands/Endpoints.antt =====
-- The eight commands of api/server.go: each answers 202 only for what the charge point's parser
-- accepts.
use ocpp_simulator.Base.{
  ℕ, fits_int64, ◌≡◌, refl, String, ◌==◌, eq_iff, true, inl, inr, arith, Bool-cases,
}
use ocpp_simulator.Json.{Bytes}
use ocpp_simulator.Json.Unmarshal.{unmarshal, read_string, read_int, read_int_ptr}
use ocpp_simulator.Schemas.{SchemaLibrary}
use ocpp_simulator.Csms.Understood.{
  remote_start_command, remote_stop_command, reset_command, unlock_connector_command,
  change_configuration_command, get_configuration_command, trigger_message_command,
  change_availability_command, FitsOption, send,
}
use ocpp_simulator.Core.Api.{Server, Backend, Response, read_envelope, empty_envelope}
use ocpp_simulator.Core.Api.Commands.Accepted.{
  read_int-fits, read_int_ptr-fits, field-keeps, handle_request-accepted, Addressed, IsQueued,
  send-IsQueued,
}
use ocpp_simulator.Core.Api.Routes.{serve}
use ocpp_simulator.Core.Api.Commands.{
  remote_start_fields, no_remote_start_req, remote_start_request, remote_stop_fields,
  no_remote_stop_req, remote_stop_request, reset_fields, no_reset_req, reset_request,
  unlock_connector_fields, no_unlock_connector_req, unlock_connector_request,
  change_configuration_fields, no_change_configuration_req, change_configuration_request,
  get_configuration_fields, no_get_configuration_req, get_configuration_request,
  trigger_message_fields, no_trigger_message_req, trigger_message_request,
  change_availability_fields, no_change_availability_req, change_availability_request,
  handle_remote_start, handle_remote_stop, handle_reset, handle_unlock_connector,
  handle_change_configuration, handle_get_configuration, handle_trigger_message,
  handle_change_availability, RemoteStartReq, RemoteStopReq, ResetReq, UnlockReq, ChangeConfigReq,
  GetConfigReq, TriggerMsgReq, ChangeAvailReq,
}

module _ (library : SchemaLibrary) (env : Backend) where
  abbrev FitsRemoteStartReq : RemoteStartReq → Type 0
  FitsRemoteStartReq r = FitsOption r.connector_id

  remote_start_request-accepted :
      (id : String) (r : RemoteStartReq) (s : Server)
      → FitsOption r.connector_id
      → (remote_start_request library env id r s).0.status ≡ 202
      → IsQueued library env "RemoteStartTransaction" s
          (remote_start_request library env id r s).1
          id
  unfolding remote_start_request send
  remote_start_request-accepted id r s fits accepted = elim (Bool-cases (r.id_tag == "")) [
    | inl empty ↦ let refused : ◌≡◌ {A = ℕ} 400 202 = rw empty at accepted in absurd (omega arith)
    | inr tagged ↦ rw tagged (
        send-IsQueued library env (remote_start_command r.id_tag r.connector_id) id s
          (λ e. ground (arith, eq_iff r.id_tag "")) fits (rw tagged at accepted))
  ]

  handle_remote_start-accepted :
      (body : Bytes) (s : Server)
      → (handle_remote_start library env body s).0.status ≡ 202
      → Addressed (unmarshal read_envelope body empty_envelope) (
          IsQueued library env "RemoteStartTransaction" s
            (handle_remote_start library env body s).1)
  unfolding handle_remote_start remote_start_request send
  handle_remote_start-accepted body s accepted =
      let (q, read, reached) =
        handle_request-accepted FitsRemoteStartReq remote_start_fields no_remote_start_req
          (remote_start_request library env) body s
          (
            (λ j r r' h e.
                field-keeps FitsRemoteStartReq (read_string j r.id_tag)
                  (λ v. record r { id_tag = v }) r' (λ v got. h) e),
            (
              (λ j r r' h e.
                  field-keeps FitsRemoteStartReq (read_int_ptr j r.connector_id)
                    (λ v. record r { connector_id = v }) r'
                    (λ n got. read_int_ptr-fits j r.connector_id n h got) e),
              tt,
            ),
          )
          tt accepted in
      let (r, fits, same) = reached in
      (
        q,
        read,
        rw same (remote_start_request-accepted q.charge_point_id r s fits (rw same at accepted)),
      )

  abbrev FitsRemoteStopReq : RemoteStopReq → Type 0
  FitsRemoteStopReq r = fits_int64 r.transaction_id ≡ true

  handle_remote_stop-accepted :
      (body : Bytes) (s : Server)
      → (handle_remote_stop library env body s).0.status ≡ 202
      → Addressed
          (unmarshal read_envelope body empty_envelope)
          (IsQueued library env "RemoteStopTransaction" s (handle_remote_stop library env body s).1)
  unfolding handle_remote_stop remote_stop_request send
  handle_remote_stop-accepted body s accepted =
      let (q, read, reached) =
        handle_request-accepted FitsRemoteStopReq remote_stop_fields no_remote_stop_req
          (remote_stop_request library env) body s
          (
            (λ j r r' h e.
                field-keeps FitsRemoteStopReq (read_int j r.transaction_id)
                  (λ v. record r { transaction_id = v }) r'
                  (λ n got. read_int-fits j r.transaction_id n h got) e),
            tt,
          )
          refl accepted in
      let (r, fits, same) = reached in
      (
        q,
        read,
        rw same (
            send-IsQueued library env (remote_stop_command r.transaction_id) q.charge_point_id s tt
              fits (rw same at accepted)),
      )

  handle_reset-accepted :
      (body : Bytes) (s : Server)
      → (handle_reset library env body s).0.status ≡ 202
      → Addressed
          (unmarshal read_envelope body empty_envelope)
          (IsQueued library env "Reset" s (handle_reset library env body s).1)
  unfolding handle_reset reset_request send
  handle_reset-accepted body s accepted =
      let (q, read, reached) =
        handle_request-accepted (λ (r : ResetReq). Unit {0}) reset_fields no_reset_req
          (reset_request library env) body s ((λ j r r' h e. tt), tt) tt accepted in
      let (r, fits, same) = reached in
      (
        q,
        read,
        rw same (
            send-IsQueued library env (reset_command r.reset_type) q.charge_point_id s tt tt
              (rw same at accepted)),
      )

  abbrev FitsUnlockReq : UnlockReq → Type 0
  FitsUnlockReq r = fits_int64 r.connector_id ≡ true

  handle_unlock_connector-accepted :
      (body : Bytes) (s : Server)
      → (handle_unlock_connector library env body s).0.status ≡ 202
      → Addressed
          (unmarshal read_envelope body empty_envelope)
          (IsQueued library env "UnlockConnector" s (handle_unlock_connector library env body s).1)
  unfolding handle_unlock_connector unlock_connector_request send
  handle_unlock_connector-accepted body s accepted =
      let (q, read, reached) =
        handle_request-accepted FitsUnlockReq unlock_connector_fields no_unlock_connector_req
          (unlock_connector_request library env) body s
          (
            (λ j r r' h e.
                field-keeps FitsUnlockReq (read_int j r.connector_id)
                  (λ v. record r { connector_id = v }) r'
                  (λ n got. read_int-fits j r.connector_id n h got) e),
            tt,
          )
          refl accepted in
      let (r, fits, same) = reached in
      (
        q,
        read,
        rw same (
            send-IsQueued library env (unlock_connector_command r.connector_id) q.charge_point_id s
              tt fits (rw same at accepted)),
      )

  handle_change_configuration-accepted :
      (body : Bytes) (s : Server)
      → (handle_change_configuration library env body s).0.status ≡ 202
      → Addressed (unmarshal read_envelope body empty_envelope) (
          IsQueued library env "ChangeConfiguration" s
            (handle_change_configuration library env body s).1)
  unfolding handle_change_configuration change_configuration_request send
  handle_change_configuration-accepted body s accepted =
      let (q, read, reached) =
        handle_request-accepted (λ (r : ChangeConfigReq). Unit {0}) change_configuration_fields
          no_change_configuration_req (change_configuration_request library env) body s
          ((λ j r r' h e. tt), ((λ j r r' h e. tt), tt)) tt accepted in
      let (r, fits, same) = reached in
      (
        q,
        read,
        rw same (
            send-IsQueued library env (change_configuration_command r.key r.value) q.charge_point_id
              s tt tt (rw same at accepted)),
      )

  handle_get_configuration-accepted :
      (body : Bytes) (s : Server)
      → (handle_get_configuration library env body s).0.status ≡ 202
      → Addressed (unmarshal read_envelope body empty_envelope) (
          IsQueued library env "GetConfiguration" s (handle_get_configuration library env body s).1)
  unfolding handle_get_configuration get_configuration_request send
  handle_get_configuration-accepted body s accepted =
      let (q, read, reached) =
        handle_request-accepted (λ (r : GetConfigReq). Unit {0}) get_configuration_fields
          no_get_configuration_req (get_configuration_request library env) body s
          ((λ j r r' h e. tt), tt) tt accepted in
      let (r, fits, same) = reached in
      (
        q,
        read,
        rw same (
            send-IsQueued library env (get_configuration_command r.key) q.charge_point_id s tt tt
              (rw same at accepted)),
      )

  abbrev FitsTriggerMsgReq : TriggerMsgReq → Type 0
  FitsTriggerMsgReq r = FitsOption r.connector_id

  handle_trigger_message-accepted :
      (body : Bytes) (s : Server)
      → (handle_trigger_message library env body s).0.status ≡ 202
      → Addressed
          (unmarshal read_envelope body empty_envelope)
          (IsQueued library env "TriggerMessage" s (handle_trigger_message library env body s).1)
  unfolding handle_trigger_message trigger_message_request send
  handle_trigger_message-accepted body s accepted =
      let (q, read, reached) =
        handle_request-accepted FitsTriggerMsgReq trigger_message_fields no_trigger_message_req
          (trigger_message_request library env) body s
          (
            (λ j r r' h e.
                field-keeps FitsTriggerMsgReq (read_string j r.requested_message)
                  (λ v. record r { requested_message = v }) r' (λ v got. h) e),
            (
              (λ j r r' h e.
                  field-keeps FitsTriggerMsgReq (read_int_ptr j r.connector_id)
                    (λ v. record r { connector_id = v }) r'
                    (λ n got. read_int_ptr-fits j r.connector_id n h got) e),
              tt,
            ),
          )
          tt accepted in
      let (r, fits, same) = reached in
      (
        q,
        read,
        rw same (
            send-IsQueued library env (trigger_message_command r.requested_message r.connector_id)
              q.charge_point_id s tt fits (rw same at accepted)),
      )

  abbrev FitsChangeAvailReq : ChangeAvailReq → Type 0
  FitsChangeAvailReq r = fits_int64 r.connector_id ≡ true

  handle_change_availability-accepted :
      (body : Bytes) (s : Server)
      → (handle_change_availability library env body s).0.status ≡ 202
      → Addressed (unmarshal read_envelope body empty_envelope) (
          IsQueued library env "ChangeAvailability" s
            (handle_change_availability library env body s).1)
  unfolding handle_change_availability change_availability_request send
  handle_change_availability-accepted body s accepted =
      let (q, read, reached) =
        handle_request-accepted FitsChangeAvailReq change_availability_fields
          no_change_availability_req (change_availability_request library env) body s
          (
            (λ j r r' h e.
                field-keeps FitsChangeAvailReq (read_int j r.connector_id)
                  (λ v. record r { connector_id = v }) r'
                  (λ n got. read_int-fits j r.connector_id n h got) e),
            (
              (λ j r r' h e.
                  field-keeps FitsChangeAvailReq (read_string j r.availability_type)
                    (λ v. record r { availability_type = v }) r' (λ v got. h) e),
              tt,
            ),
          )
          refl accepted in
      let (r, fits, same) = reached in
      (
        q,
        read,
        rw same (
            send-IsQueued library env
              (change_availability_command r.connector_id r.availability_type) q.charge_point_id s
              tt fits (rw same at accepted)),
      )

-- The commands that the API offers, with their paths and actions.
pub data Endpoint : Type 0 where
  remote_starts remote_stops resets unlocks changes gets triggers switches : Endpoint

abbrev pub request_line : Endpoint → String
request_line remote_starts = "POST /internal/csms/remote-start"
request_line remote_stops = "POST /internal/csms/remote-stop"
request_line resets = "POST /internal/csms/reset"
request_line unlocks = "POST /internal/csms/unlock-connector"
request_line changes = "POST /internal/csms/change-configuration"
request_line gets = "POST /internal/csms/get-configuration"
request_line triggers = "POST /internal/csms/trigger-message"
request_line switches = "POST /internal/csms/change-availability"

abbrev pub endpoint_action : Endpoint → String
endpoint_action remote_starts = "RemoteStartTransaction"
endpoint_action remote_stops = "RemoteStopTransaction"
endpoint_action resets = "Reset"
endpoint_action unlocks = "UnlockConnector"
endpoint_action changes = "ChangeConfiguration"
endpoint_action gets = "GetConfiguration"
endpoint_action triggers = "TriggerMessage"
endpoint_action switches = "ChangeAvailability"

-- Where the server answers 202 to a POST of a command, it has published exactly one frame more, on
-- the out topic of the charge point in the envelope: a CALL of the endpoint's action under the next
-- id, whose payload the charge point's parser takes for a command of that kind, a
-- RemoteStartTransaction with a tag that is not empty; and the transactions and runtime events are
-- as they were.
pub serve-IsQueued :
    (library : SchemaLibrary) (env : Backend) (unrouted : String → Response) (e : Endpoint)
    (body : Bytes) (s : Server)
    → (serve library env unrouted (request_line e) body s).0.status ≡ 202
    → Addressed (unmarshal read_envelope body empty_envelope) (
        IsQueued library env
          (endpoint_action e)
          s
          (serve library env unrouted (request_line e) body s).1)
unfolding serve
serve-IsQueued library env unrouted remote_starts body s accepted =
    handle_remote_start-accepted library env body s accepted
serve-IsQueued library env unrouted remote_stops body s accepted =
    handle_remote_stop-accepted library env body s accepted
serve-IsQueued library env unrouted resets body s accepted =
    handle_reset-accepted library env body s accepted
serve-IsQueued library env unrouted unlocks body s accepted =
    handle_unlock_connector-accepted library env body s accepted
serve-IsQueued library env unrouted changes body s accepted =
    handle_change_configuration-accepted library env body s accepted
serve-IsQueued library env unrouted gets body s accepted =
    handle_get_configuration-accepted library env body s accepted
serve-IsQueued library env unrouted triggers body s accepted =
    handle_trigger_message-accepted library env body s accepted
serve-IsQueued library env unrouted switches body s accepted =
    handle_change_availability-accepted library env body s accepted
