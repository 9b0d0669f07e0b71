-- ===== src/Core/MessageLogs.antt =====
-- db/message_log_repo.go with the table `ocpp_message_logs`. As in Core/Store, a statement may fail
-- on its own, and how PostgreSQL orders rows by time is an argument. `payload_json` holds the bytes
-- of the frame.
pub mod Rows
use ocpp_simulator.Base.{
  ℤ, String, ◌==◌, Bool, not, ◌&&◌, List, [], ◌∷◌, ◌++◌, Option, none, some, any, select, take,
  if◌then◌else◌,
}
use ocpp_simulator.Result.{Error, Result, ok, err, wrap, external}
use ocpp_simulator.Json.{Bytes}
use ocpp_simulator.Core.Store.{Call, or_else}
use ocpp_simulator.Core.Events.{fits_optional, limit_or_default}

pub record MessageLog : Type 0 where
  pub id : String
  pub charge_point_id : String
  pub direction : String
  pub ocpp_version : Option String
  pub message_type : String
  pub message_type_id : Option ℤ
  pub action : Option String
  pub unique_id : Option String
  pub transaction_uuid : Option String
  pub transaction_numeric_id : Option ℤ
  pub payload_json : Bytes
  pub status : String
  pub error_code : Option String
  pub error_description : Option String
  pub topic : String
  pub created_at : String

-- The empty columns of a row are filled in.
unfoldable pub new_log : Call → MessageLog → MessageLog
new_log call m = record m {
  id = or_else m.id call.uuid;
  created_at = or_else m.created_at call.now;
  status = or_else m.status "ok";
}

unfoldable pub admits_log : MessageLog → List MessageLog → Bool
unfolding any
admits_log m logs =
    not (any (λ row. row.id == m.id) logs)
    && fits_optional m.message_type_id
    && fits_optional m.transaction_numeric_id

insert_log : Option Error → MessageLog → List MessageLog → Result String × List MessageLog
unfolding admits_log
insert_log (some e) m logs = (err (wrap "insert ocpp_message_log" e), logs)
insert_log none m logs =
    if admits_log m logs
    then (ok m.id, logs ++ (m ∷ []))
    else (err (wrap "insert ocpp_message_log" (external "constraint violation")), logs)

-- MessageLogRepo.Create
unfoldable pub create_log : Call → MessageLog → List MessageLog → Result String × List MessageLog
unfolding insert_log new_log
create_log call m logs = insert_log call.failure (new_log call m) logs

-- MessageLogRepo.ListByChargePoint
unfoldable pub list_logs :
    (List MessageLog → List MessageLog)
    → Call
    → String
    → ℤ
    → List MessageLog
    → Result (List MessageLog)
unfolding select
list_logs newest_first call charge_point_id limit logs = elim call.failure [
  | some e ↦ err e
  | none ↦ ok (
      take (limit_or_default limit)
        (newest_first (select (λ row. row.charge_point_id == charge_point_id) logs)))
]
