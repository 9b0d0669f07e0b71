-- ===== src/Core/Store/Queries.antt =====
-- db/transaction_repo.go: the list of a charge point's transactions, and AssignNumericID.
-- How PostgreSQL orders rows by their time of creation (equal times stand in any order) is an
-- argument, `newest_first`.
pub mod Assigned
mod Tests
use ocpp_simulator.Base.{
  ℕ, String, ◌==◌, Bool, true, false, not, ◌&&◌, List, [], ◌∷◌, Option, none, some, any, select,
  if◌then◌else◌,
}
use ocpp_simulator.Result.{Error, Result, ok, err, quoted, wrap, external}
use ocpp_simulator.Core.Store.{Transaction, Call, clashes, fits_numeric, find, update_where}

-- TransactionRepo.ListByChargePoint
unfoldable pub list_by_charge_point :
    (List Transaction → List Transaction)
    → Call
    → String
    → List Transaction
    → Result (List Transaction)
unfolding select
list_by_charge_point newest_first call charge_point_id rows = elim call.failure [
  | some e ↦ err e
  | none ↦ ok (newest_first (select (λ row. row.charge_point_id == charge_point_id) rows))
]

-- COALESCE(started_at, now)
abbrev coalesce : Option String → String → Option String
coalesce none now = some now
coalesce (some t) now = some t

unfoldable pub assigned_row : Call → ℕ → String → Transaction → Transaction
assigned_row call numeric_id status row = record row {
  numeric_id = some numeric_id;
  status = status;
  started_at = coalesce row.started_at call.now;
  updated_at = call.now;
}

abbrev is_unset : Option ℕ → Bool
is_unset none = true
is_unset (some n) = false

-- WHERE id = $5 AND numeric_id IS NULL
abbrev pub awaits_id : String → Transaction → Bool
awaits_id id row = row.id == id && is_unset row.numeric_id

abbrev pub assign_error : Error → Error
assign_error e = wrap "assign numeric_id" e

assign_to :
    Call
    → String
    → ℕ
    → String
    → Option Transaction
    → List Transaction
    → Result (Unit {0}) × List Transaction
unfolding any update_where assigned_row
assign_to call id numeric_id status none rows =
    (err (quoted "transaction already has numeric_id or does not exist" id), rows)
assign_to call id numeric_id status (some row) rows =
    if any (clashes (some numeric_id) row) rows
    then (err (assign_error (external "constraint violation")), rows)
    else (ok tt, update_where (awaits_id id) (assigned_row call numeric_id status) rows)

-- TransactionRepo.AssignNumericID; the primary key leaves at most one row to update.
unfoldable pub assign_numeric_id :
    Call → String → ℕ → String → List Transaction → Result (Unit {0}) × List Transaction
unfolding assign_to find
assign_numeric_id call id numeric_id status rows = elim call.failure [
  | some e ↦ (err (assign_error e), rows)
  | none ↦
      if fits_numeric (some numeric_id)
      then assign_to call id numeric_id status (find (awaits_id id) rows) rows
      else (err (assign_error (external "integer out of range")), rows)
]
