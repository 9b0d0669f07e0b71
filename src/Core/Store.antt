-- ===== src/Core/Store.antt =====
-- db/transaction_repo.go with db/migrations/00001 (the table `transactions`): the SQL statements as
-- functions on the rows. PostgreSQL refuses a row that breaks the primary key, the unique index on
-- (charge_point_id, numeric_id) or the range of INTEGER; any statement may fail on its own.
-- Numeric ids are natural numbers: the service counts up from 1.
pub mod Rows
pub mod Queries
use ocpp_simulator.Base.{
  ℕ, ◌^◌, ℤ, pos, negsuc, String, ◌==◌, Bool, true, false, not, ◌&&◌, ◌||◌, List, [], ◌∷◌, ◌++◌,
  Option, none, some, ltb, leb, eqb, any, if◌then◌else◌,
}
use ocpp_simulator.Result.{Error, Result, ok, err, msg, quoted, wrap, not_found, external}

pub record Transaction : Type 0 where
  pub id : String
  pub numeric_id : Option ℕ
  pub charge_point_id : String
  pub evse_id : ℤ
  pub connector_number : ℤ
  pub id_tag : String
  pub ocpp_version : String
  pub status : String
  pub started_at : Option String
  pub stopped_at : Option String
  pub start_meter_wh : ℤ
  pub stop_meter_wh : Option ℤ
  pub stop_reason : Option String
  pub created_at : String
  pub updated_at : String

-- The surroundings of one statement: the time, a fresh UUID, and a failure of the database.
pub record Call : Type 0 where
  pub now : String
  pub uuid : String
  pub failure : Option Error

-- INTEGER holds 32 bits.
abbrev pub integer_limit : ℕ
integer_limit = 2 ^ 31

abbrev pub fits_integer : ℤ → Bool
fits_integer (pos n) = ltb n integer_limit
fits_integer (negsuc n) = ltb n integer_limit

abbrev pub fits_numeric : Option ℕ → Bool
fits_numeric none = true
fits_numeric (some n) = ltb n integer_limit

-- numeric_id = $1, false on NULL
abbrev pub has_numeric_id : ℕ → Option ℕ → Bool
has_numeric_id n none = false
has_numeric_id n (some m) = eqb m n

-- Two rows with equal, non-NULL numeric ids of one charge point.
abbrev pub clashes : Option ℕ → Transaction → Transaction → Bool
clashes none t row = false
clashes (some n) t row = row.charge_point_id == t.charge_point_id && has_numeric_id n row.numeric_id

-- The constraints of the table, for a row that is inserted.
pub admits : Transaction → List Transaction → Bool
unfolding any
admits t rows =
    not (any (λ row. row.id == t.id) rows)
    && not (any (clashes t.numeric_id t) rows)
    && fits_numeric t.numeric_id
    && fits_integer t.evse_id
    && fits_integer t.connector_number
    && fits_integer t.start_meter_wh

abbrev pub or_else : String → String → String
or_else s fallback = if s == "" then fallback else s

-- The row that Create inserts: columns that the statement leaves out are NULL.
unfoldable pub new_row : Call → Transaction → Transaction
new_row call t = record t {
  id = or_else t.id call.uuid;
  created_at = or_else t.created_at call.now;
  updated_at = call.now;
  started_at = none;
  stopped_at = none;
  stop_meter_wh = none;
  stop_reason = none;
}

insert_row : Option Error → Transaction → List Transaction → Result String × List Transaction
unfolding admits
insert_row (some e) row rows = (err (wrap "insert transaction" e), rows)
insert_row none row rows =
    if admits row rows
    then (ok row.id, rows ++ (row ∷ []))
    else (err (wrap "insert transaction" (external "constraint violation")), rows)

-- TransactionRepo.Create
unfoldable pub create : Call → Transaction → List Transaction → Result String × List Transaction
unfolding insert_row new_row
create call t rows = insert_row call.failure (new_row call t) rows

-- UPDATE ... WHERE
unfoldable pub update_where :
    (Transaction → Bool) → (Transaction → Transaction) → List Transaction → List Transaction
update_where p f [] = []
update_where p f (row ∷ rows) = (if p row then f row else row) ∷ update_where p f rows

unfoldable pub stopped_row : Call → ℤ → String → Transaction → Transaction
stopped_row call meter_stop reason row = record row {
  status = "stopped";
  stop_meter_wh = some meter_stop;
  stop_reason = some reason;
  stopped_at = some call.now;
  updated_at = call.now;
}

stop_rows :
    Option Error
    → Call
    → String
    → ℤ
    → String
    → List Transaction
    → Result (Unit {0}) × List Transaction
unfolding update_where stopped_row
stop_rows (some e) call id meter_stop reason rows = (err e, rows)
stop_rows none call id meter_stop reason rows =
    if fits_integer meter_stop
    then (ok tt, update_where (λ row. row.id == id) (stopped_row call meter_stop reason) rows)
    else (err (external "integer out of range"), rows)

-- TransactionRepo.Stop: an unknown id updates no row, and is no error.
unfoldable pub stop :
    Call → String → ℤ → String → List Transaction → Result (Unit {0}) × List Transaction
unfolding stop_rows
stop call id meter_stop reason rows = stop_rows call.failure call id meter_stop reason rows

update_rows :
    Option Error
    → (List Transaction → List Transaction)
    → List Transaction
    → Result (Unit {0}) × List Transaction
update_rows (some e) f rows = (err e, rows)
update_rows none f rows = (ok tt, f rows)

-- TransactionRepo.UpdateStatus
unfoldable pub update_status :
    Call → String → String → List Transaction → Result (Unit {0}) × List Transaction
unfolding update_rows update_where
update_status call id status rows =
    update_rows call.failure
      (update_where (λ row. row.id == id)
        (λ row. record row { status = status; updated_at = call.now }))
      rows

unfoldable pub find : (Transaction → Bool) → List Transaction → Option Transaction
find p [] = none
find p (row ∷ rows) = if p row then some row else find p rows

found_row : Option Transaction → Result Transaction
found_row none = err not_found
found_row (some row) = ok row

read_row : Option Error → String → List Transaction → Result Transaction
unfolding find found_row
read_row (some e) id rows = err e
read_row none id rows = found_row (find (λ row. row.id == id) rows)

-- TransactionRepo.GetByID
unfoldable pub get_by_id : Call → String → List Transaction → Result Transaction
unfolding read_row
get_by_id call id rows = read_row call.failure id rows

larger : ℕ → Option ℕ → ℕ
larger m none = m
larger m (some n) = if ltb m n then n else m

unfoldable pub max_of : ℕ → List Transaction → ℕ
unfolding larger
max_of m [] = m
max_of m (row ∷ rows) = max_of (larger m row.numeric_id) rows

max_or_failure : Option Error → List Transaction → Result ℕ
unfolding max_of
max_or_failure (some e) rows = err e
max_or_failure none rows = ok (max_of 0 rows)

-- TransactionRepo.MaxNumericID
unfoldable pub max_numeric_id : Call → List Transaction → Result ℕ
unfolding max_or_failure
max_numeric_id call rows = max_or_failure call.failure rows
