-- ===== src/Core/Api.antt =====
-- api/server.go: the HTTP answers of ocpp-core, and the business decisions for authorize, start and
-- stop. A handler is a function of the request's body and the state of the service.
-- json.Decoder reads the first value of a body, json.Unmarshal all of it: a body with more text
-- behind its first value is not modelled.
pub mod Commands
pub mod Routes
pub mod Decisions
pub mod Effects
use ocpp_simulator.Base.{
  ℕ, ℤ, pos, negsuc, String, ◌==◌, Bool, false, List, [], ◌∷◌, Option, none, some, eqb,
  if◌then◌else◌,
}
use ocpp_simulator.Result.{Error, Result, ok, err, msg, ◌>>=◌}
use ocpp_simulator.Json.{Json, num, str, Bytes, no_bytes, object}
use ocpp_simulator.Json.Unmarshal.{unmarshal, read_string, read_int, read_raw, read_struct}
use ocpp_simulator.Csms as Csms
use ocpp_simulator.Core.Events.{RuntimeEvent, create_event}
use ocpp_simulator.Core.Store.{Transaction, Call, find}
use ocpp_simulator.Core.Store.Queries.{list_by_charge_point}
use ocpp_simulator.Core.Transactions.{Service, StartResult, start, stop_transaction}

-- The parts that the server holds.
pub record Server : Type 0 where
  pub transactions : Service
  pub commands : Csms.Service
  pub events : List RuntimeEvent

-- What becomes of a request of the processor's HTTP client and of the answer to it: both arrive; the
-- request does not; or it does and is handled, but no response comes back in time, or not its whole
-- body.
pub data Network : Type 0 where
  answers : Network
  unreachable loses cuts : Error → Network

-- The surroundings of one request: of each SQL statement that a handler may run, of a command, the
-- order in which PostgreSQL lists rows, and the text of an error, with the fate of the request.
pub record Backend : Type 0 where
  pub event_insert : Call
  pub transaction_insert : Call
  pub transaction_list : Call
  pub transaction_update : Call
  pub newest_first : List Transaction → List Transaction
  pub error_text : Error → String
  pub network : Network
  pub command : Csms.Surroundings

pub record Response : Type 0 where
  pub status : ℕ
  pub body : Json

abbrev pub write_json : ℕ → Json → Response
write_json status body = record { status = status; body = body }

abbrev pub write_error : ℕ → String → Response
write_error status message = write_json status (object (("error", str message) ∷ []))

-- envelope
pub record Envelope : Type 0 where
  pub charge_point_id : String
  pub payload : Bytes

abbrev pub empty_envelope : Envelope
empty_envelope = record { charge_point_id = ""; payload = no_bytes }

unfoldable pub read_envelope : Json → Envelope → Result Envelope
unfolding read_struct
read_envelope = read_struct (
    (
      "chargePointId",
      λ j r. do v ← read_string j r.charge_point_id; ok (record r { charge_point_id = v }),
    )
    ∷ ("payload", λ j r. do v ← read_raw j r.payload; ok (record r { payload = v }))
    ∷ [])

abbrev pub envelope_json : String → Json → Json
envelope_json charge_point_id payload =
    object (("chargePointId", str charge_point_id) ∷ ("payload", payload) ∷ [])

-- How every handler begins: the envelope, then the payload, or status 400.
module _ {R : Type 0} (read : Json → R → Result R) (zero : R)
    (next : String → R → Server → Response × Server) where
  unfoldable pub with_arguments : String → Result R → Server → Response × Server
  with_arguments charge_point_id (err e) s = (write_error 400 "invalid payload", s)
  with_arguments charge_point_id (ok r) s = next charge_point_id r s

  unfoldable pub with_request : Result Envelope → Server → Response × Server
  unfolding with_arguments
  with_request (err e) s = (write_error 400 "invalid request body", s)
  with_request (ok req) s = with_arguments req.charge_point_id (unmarshal read req.payload zero) s

  unfoldable pub handle_request : Bytes → Server → Response × Server
  unfolding with_request read_envelope
  handle_request body s = with_request (unmarshal read_envelope body empty_envelope) s

-- authorizeReq, startTxReq, stopTxReq
pub record AuthorizeReq : Type 0 where
  pub id_tag : String

pub record StartTxReq : Type 0 where
  pub connector_id : ℤ
  pub id_tag : String
  pub meter_start : ℤ
  pub timestamp : String

pub record StopTxReq : Type 0 where
  pub transaction_id : ℤ
  pub id_tag : String
  pub meter_stop : ℤ
  pub timestamp : String
  pub reason : String

abbrev pub no_authorize_req : AuthorizeReq
no_authorize_req = record { id_tag = "" }

abbrev pub no_start_tx_req : StartTxReq
no_start_tx_req = record { connector_id = pos 0; id_tag = ""; meter_start = pos 0; timestamp = "" }

abbrev pub no_stop_tx_req : StopTxReq
no_stop_tx_req = record {
  transaction_id = pos 0;
  id_tag = "";
  meter_stop = pos 0;
  timestamp = "";
  reason = "";
}

unfoldable pub read_authorize_req : Json → AuthorizeReq → Result AuthorizeReq
unfolding read_struct
read_authorize_req =
    read_struct (("idTag", λ j r. do v ← read_string j r.id_tag; ok (record r { id_tag = v })) ∷ [])

unfoldable pub read_start_tx_req : Json → StartTxReq → Result StartTxReq
unfolding read_struct
read_start_tx_req = read_struct (
    ("connectorId", λ j r. do v ← read_int j r.connector_id; ok (record r { connector_id = v }))
    ∷ ("idTag", λ j r. do v ← read_string j r.id_tag; ok (record r { id_tag = v }))
    ∷ ("meterStart", λ j r. do v ← read_int j r.meter_start; ok (record r { meter_start = v }))
    ∷ ("timestamp", λ j r. do v ← read_string j r.timestamp; ok (record r { timestamp = v }))
    ∷ [])

unfoldable pub read_stop_tx_req : Json → StopTxReq → Result StopTxReq
unfolding read_struct
read_stop_tx_req = read_struct (
    (
      "transactionId",
      λ j r. do v ← read_int j r.transaction_id; ok (record r { transaction_id = v }),
    )
    ∷ ("idTag", λ j r. do v ← read_string j r.id_tag; ok (record r { id_tag = v }))
    ∷ ("meterStop", λ j r. do v ← read_int j r.meter_stop; ok (record r { meter_stop = v }))
    ∷ ("timestamp", λ j r. do v ← read_string j r.timestamp; ok (record r { timestamp = v }))
    ∷ ("reason", λ j r. do v ← read_string j r.reason; ok (record r { reason = v }))
    ∷ [])

-- { "idTagInfo": { "status": ... } }
abbrev pub id_tag_info : String → List (String × Json)
id_tag_info status = ("idTagInfo", object (("status", str status) ∷ [])) ∷ []

-- StartTransaction.conf
abbrev pub start_conf : StartResult → Json
start_conf r = object (("transactionId", num (pos r.transaction_id)) ∷ id_tag_info r.status)

-- *list[i].NumericID == numericID
abbrev pub has_number : ℤ → Option ℕ → Bool
has_number (pos n) (some m) = eqb m n
has_number _ _ = false

found_transaction : Option Transaction → Result Transaction
found_transaction none = err (msg "not found")
found_transaction (some t) = ok t

module _ (env : Backend) where
  -- A failed insert of an event is only logged.
  unfoldable pub record_runtime_event : String → String → String → String → Server → Server
  unfolding create_event
  record_runtime_event charge_point_id event_type severity message s = record s {
    events =
        (create_event env.event_insert
          (record {
            id = "";
            charge_point_id = some charge_point_id;
            connector_num = none;
            event_type = event_type;
            severity = severity;
            message = message;
            payload_json = none;
            created_at = "";
          })
          s.events).1;
  }

  unfoldable pub authorize : String → AuthorizeReq → Server → Response × Server
  unfolding record_runtime_event
  authorize charge_point_id req s =
      if req.id_tag == "" then (write_error 400 "idTag is required", s) else (
        write_json 200 (envelope_json charge_point_id (object (id_tag_info "Accepted"))),
        record_runtime_event charge_point_id "transaction.authorized" "info" "idTag accepted" s,
      )

  unfoldable pub handle_authorize : Bytes → Server → Response × Server
  unfolding authorize handle_request read_authorize_req
  handle_authorize = handle_request read_authorize_req no_authorize_req authorize

  unfoldable pub started_answer : String → Result StartResult × Service → Server → Response × Server
  started_answer charge_point_id (err e, t) s =
      (write_error 500 (env.error_text e), record s { transactions = t })
  started_answer charge_point_id (ok r, t) s =
      (write_json 200 (envelope_json charge_point_id (start_conf r)), record s { transactions = t })

  unfoldable pub start_request : String → StartTxReq → Server → Response × Server
  unfolding started_answer
  start_request charge_point_id req s =
      if req.id_tag == ""
      then (write_error 400 "idTag is required", s)
      else started_answer charge_point_id
          (start env.transaction_insert
            (record {
              charge_point_id = charge_point_id;
              evse_id = pos 1;
              connector_number = req.connector_id;
              id_tag = req.id_tag;
              meter_start = req.meter_start;
              ocpp_version = "1.6J";
            })
            s.transactions)
          s

  unfoldable pub handle_start_transaction : Bytes → Server → Response × Server
  unfolding start_request handle_request read_start_tx_req
  handle_start_transaction = handle_request read_start_tx_req no_start_tx_req start_request

  unfoldable pub find_transaction_by_numeric_id : String → ℤ → List Transaction → Result Transaction
  unfolding list_by_charge_point find found_transaction
  find_transaction_by_numeric_id charge_point_id numeric_id rows = do
    list ← list_by_charge_point env.newest_first env.transaction_list charge_point_id rows
    found_transaction (find (λ row. has_number numeric_id row.numeric_id) list)

  unfoldable pub stopped_answer : String → Result (Unit {0}) × Service → Server → Response × Server
  stopped_answer charge_point_id (err e, t) s =
      (write_error 500 (env.error_text e), record s { transactions = t })
  stopped_answer charge_point_id (ok done, t) s = (
    write_json 200 (envelope_json charge_point_id (object (id_tag_info "Accepted"))),
    record s { transactions = t },
  )

  unfoldable pub stop_found : String → StopTxReq → Result Transaction → Server → Response × Server
  unfolding stopped_answer
  stop_found charge_point_id req (err e) s = (write_error 404 "transaction not found", s)
  stop_found charge_point_id req (ok t) s =
      stopped_answer charge_point_id
        (stop_transaction env.transaction_update t.id req.meter_stop req.reason s.transactions) s

  unfoldable pub stop_request : String → StopTxReq → Server → Response × Server
  unfolding stop_found find_transaction_by_numeric_id
  stop_request charge_point_id req s =
      stop_found charge_point_id req
        (find_transaction_by_numeric_id charge_point_id req.transaction_id s.transactions.rows) s

  unfoldable pub handle_stop_transaction : Bytes → Server → Response × Server
  unfolding stop_request handle_request read_stop_tx_req
  handle_stop_transaction = handle_request read_stop_tx_req no_stop_tx_req stop_request
