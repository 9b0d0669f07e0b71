-- ===== src/Core/Transactions.antt =====
-- transaction/service.go: the lifecycle of transactions and the counter of numeric ids.
-- The mutex guards the counter alone, and is released around the INSERT: `take_id`, the INSERT and
-- `roll_back` are three steps, which `start` runs one after the other.
pub mod Counter
pub mod Restarts
pub mod Interleaved
pub mod Steady
mod Tests
use ocpp_simulator.Base.{ℕ, suc, ◌+◌, ℤ, String, List, Option, none, some}
use ocpp_simulator.Result.{Error, Result, ok, err, wrap}
use ocpp_simulator.Core.Store.{Transaction, Call, create, stop, get_by_id, max_numeric_id}

-- Service, with the table behind its repository.
pub record Service : Type 0 where
  pub next_id : ℕ
  pub rows : List Transaction

pub record StartInput : Type 0 where
  pub charge_point_id : String
  pub evse_id : ℤ
  pub connector_number : ℤ
  pub id_tag : String
  pub meter_start : ℤ
  pub ocpp_version : String

pub record StartResult : Type 0 where
  pub transaction_id : ℕ
  pub status : String

-- NewService
unfoldable pub new_service : List Transaction → Service
new_service rows = record { next_id = 0; rows = rows }

counter_from : Result ℕ → Service → Result (Unit {0}) × Service
counter_from (err e) s = (err (wrap "read max numeric_id" e), s)
counter_from (ok max_id) s = (ok tt, record s { next_id = max_id + 1 })

-- InitCounter
unfoldable pub init_counter : Call → Service → Result (Unit {0}) × Service
unfolding counter_from max_numeric_id
init_counter call s = counter_from (max_numeric_id call s.rows) s

-- numericID := s.nextID; s.nextID++
unfoldable pub take_id : Service → ℕ × Service
take_id s = (s.next_id, record s { next_id = suc s.next_id })

-- s.nextID = numericID
unfoldable pub roll_back : ℕ → Service → Service
roll_back numeric_id s = record s { next_id = numeric_id }

unfoldable pub transaction_of : StartInput → ℕ → Transaction
transaction_of input numeric_id = record {
  id = "";
  numeric_id = some numeric_id;
  charge_point_id = input.charge_point_id;
  evse_id = input.evse_id;
  connector_number = input.connector_number;
  id_tag = input.id_tag;
  ocpp_version = input.ocpp_version;
  status = "active";
  started_at = none;
  stopped_at = none;
  start_meter_wh = input.meter_start;
  stop_meter_wh = none;
  stop_reason = none;
  created_at = "";
  updated_at = "";
}

-- s.repo.Create(ctx, db.Transaction{...})
unfoldable pub create_row : Call → StartInput → ℕ → Service → Result String × Service
unfolding create transaction_of
create_row call input numeric_id s =
    let (result, rows) = create call (transaction_of input numeric_id) s.rows in
    (result, record s { rows = rows })

finish_start : ℕ → Result String → Service → Result StartResult × Service
unfolding roll_back
finish_start numeric_id (err e) s = (err (wrap "create transaction" e), roll_back numeric_id s)
finish_start numeric_id (ok id) s =
    (ok (record { transaction_id = numeric_id; status = "Accepted" }), s)

-- Start
unfoldable pub start : Call → StartInput → Service → Result StartResult × Service
unfolding take_id create_row finish_start
start call input s =
    let (numeric_id, s₁) = take_id s in
    let (result, s₂) = create_row call input numeric_id s₁ in finish_start numeric_id result s₂

-- Stop
unfoldable pub stop_transaction : Call → String → ℤ → String → Service → Result (Unit {0}) × Service
unfolding stop
stop_transaction call id meter_stop reason s =
    let (result, rows) = stop call id meter_stop reason s.rows in (result, record s { rows = rows })

-- GetByID
unfoldable pub get_transaction : Call → String → Service → Result Transaction
unfolding get_by_id
get_transaction call id s = get_by_id call id s.rows
