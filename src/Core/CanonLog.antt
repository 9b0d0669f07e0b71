-- ===== src/Core/CanonLog.antt =====
-- canonlog/service.go: the row of each frame that is observed on `ocpp/+/in` and `ocpp/+/out`.
-- The client runs each callback in a goroutine of its own; each runs one INSERT, so that the table is
-- as the order of the INSERTs makes it, and a sequence of deliveries is in that order. The payload
-- column holds a frame as its JSON value, or as its text where it is not JSON.
pub mod Faithful
pub mod Start
mod Tests
use ocpp_simulator.Base.{ℤ, ◌==ℤ◌, String, ◌==◌, List, Option, none, some, if◌then◌else◌}
use ocpp_simulator.Result.{Result, ok, err}
use ocpp_simulator.Json.{Bytes}
use ocpp_simulator.Message.{Message, call, call_result, call_error}
use ocpp_simulator.Codec.{decode}
use ocpp_simulator.Topic.{logged_id_from_topic}
use ocpp_simulator.Core.Store.{Call}
use ocpp_simulator.Core.MessageLogs.{MessageLog, create_log}

unfoldable pub logged_type_name : ℤ → String
logged_type_name id =
    if id ==ℤ call
    then "CALL"
    else if id ==ℤ call_result
    then "CALLRESULT"
    else if id ==ℤ call_error
    then "CALLERROR"
    else "UNKNOWN"

-- strPtr, and `if msg.Action != ""`
abbrev pub str_ptr : String → Option String
str_ptr s = if s == "" then none else some s

-- The columns of a frame that says CALLERROR.
unfoldable pub with_error : Message → MessageLog → MessageLog
with_error m row =
    if m.message_type_id ==ℤ call_error
    then record row {
      status = "call_error";
      error_code = some m.error_code;
      error_description = some m.error_description;
    }
    else row

unfoldable pub with_envelope : Result Message → MessageLog → MessageLog
unfolding with_error logged_type_name
with_envelope (err e) row = record row { status = "parse_error" }
with_envelope (ok m) row = with_error m (record row {
  message_type = logged_type_name m.message_type_id;
  message_type_id = some m.message_type_id;
  unique_id = str_ptr m.unique_id;
  action = str_ptr m.action;
})

unfoldable pub bare_row : String → String → String → Bytes → MessageLog
bare_row charge_point_id topic direction payload = record {
  id = "";
  charge_point_id = charge_point_id;
  direction = direction;
  ocpp_version = none;
  message_type = "UNKNOWN";
  message_type_id = none;
  action = none;
  unique_id = none;
  transaction_uuid = none;
  transaction_numeric_id = none;
  payload_json = payload;
  status = "ok";
  error_code = none;
  error_description = none;
  topic = topic;
  created_at = "";
}

unfoldable pub row_of : String → String → String → Bytes → MessageLog
unfolding with_envelope bare_row
row_of charge_point_id topic direction payload =
    with_envelope (decode payload) (bare_row charge_point_id topic direction payload)

-- persist: a topic without an id is dropped, and a failed insert is only logged.
unfoldable pub persist : Call → String → String → Bytes → List MessageLog → List MessageLog
unfolding row_of
persist call topic direction payload logs =
    let id = logged_id_from_topic topic in
    if id == "" then logs else (create_log call (row_of id topic direction payload) logs).1
