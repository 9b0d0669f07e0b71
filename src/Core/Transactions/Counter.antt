-- ===== src/Core/Transactions/Counter.antt =====
-- Starts one after the other: numeric ids are fresh, and a failed start leaves no trace.
use ocpp_simulator.Base.{
  ℕ, suc, ◌≤◌, ◌<◌, ◌≡◌, ◌≢◌, ℤ, String, ◌==◌, true, ◌⊎◌, inl, inr, [], ◌∷◌, ◌++◌, Option, none,
  some, All, All-concat, All-map, AllPairs, AllPairs-concat, arith,
}
use native.Mathlib.Numerals.{add-one}
use ocpp_simulator.Result.{Error, ok, err, wrap}
use ocpp_simulator.Core.Store.{
  Transaction, Call, fits_numeric, integer_limit, admits, new_row, stopped_row, max_numeric_id,
}
use ocpp_simulator.Core.Store.Rows.{
  create-cases, admits-fits, IsBelow, IsBelow-mono, max_of-IsBelow, max_of-lt, update_where-All,
  update_where-AllPairs, stop-cases,
}
use ocpp_simulator.Core.Transactions.{
  Service, StartInput, init_counter, transaction_of, create_row, finish_start, start,
  stop_transaction,
}

abbrev pub BothDiffer : Option ℕ → Option ℕ → Type 0
BothDiffer none o = Unit
BothDiffer (some n) none = Unit
BothDiffer (some n) (some m) = n ≢ m

-- Two rows have no numeric id in common, whatever their charge points.
abbrev pub IdsDiffer : Transaction → Transaction → Type 0
IdsDiffer row t = BothDiffer row.numeric_id t.numeric_id

-- The counter is above every stored id, ids are not shared, and the counter fits in the column.
pub record Inv (s : Service) : Type 0 where
  pub below : All (λ row. IsBelow s.next_id row.numeric_id) s.rows
  pub distinct : AllPairs IdsDiffer s.rows
  pub bounded : s.next_id ≤ integer_limit

-- What a start does: it adds one active row under the next numeric id, or it changes nothing.
abbrev pub started : Call → StartInput → Service → Service
started call input s = record {
  next_id = suc s.next_id;
  rows = s.rows ++ (new_row call (transaction_of input s.next_id) ∷ []);
}

pub start-cases :
    (call : Call) (input : StartInput) (s : Service)
    → ((s.next_id < integer_limit)
        × (start call input s ≡ (
          ok (record { transaction_id = s.next_id; status = "Accepted" }),
          started call input s,
        )))
      ⊎ ((e : Error) × (start call input s ≡ (err e, s)))
unfolding start create_row
start-cases call input s = elim (create-cases call (transaction_of input s.next_id) s.rows) [
  | inl (admitted, e) ↦ inl (fits admitted, rw (e, finish_start))
  | inr (e, failed) ↦ inr (wrap "create transaction" e, rw (failed, finish_start))
]
  where
    fits :
        admits (new_row call (transaction_of input s.next_id)) s.rows ≡ true
        → s.next_id < integer_limit
    fits h =
        let room : fits_numeric (some s.next_id) ≡ true =
          admits-fits (new_row call (transaction_of input s.next_id)) s.rows h in
        ground arith

-- A start keeps the invariant.
pub start-Inv :
    (call : Call) (input : StartInput) (s : Service) → Inv s → Inv (start call input s).1
unfolding new_row transaction_of
start-Inv call input s v = elim (start-cases call input s) [
  | inr (e, failed) ↦ rw failed v
  | inl (room, e) ↦ rw e (record {
    below =
        All-concat (λ row. IsBelow (suc s.next_id) row.numeric_id) s.rows (row input)
          (All-map (λ row. IsBelow s.next_id row.numeric_id)
            (λ row. IsBelow (suc s.next_id) row.numeric_id) s.rows
            (λ row. IsBelow-mono s.next_id (suc s.next_id) row.numeric_id (omega arith)) v.below)
          (omega arith);
    distinct = AllPairs-concat IdsDiffer s.rows (row input) v.distinct (
        All-map (λ row. IsBelow s.next_id row.numeric_id) (λ r. IdsDiffer r (row input)) s.rows
          (λ r h. below_differs r.numeric_id h) v.below);
    bounded = room;
  })
]
  where
    row : StartInput → Transaction
    row input = new_row call (transaction_of input s.next_id)

    below_differs : (o : Option ℕ) → IsBelow s.next_id o → BothDiffer o (some s.next_id)
    below_differs none _ = tt
    below_differs (some m) h = λ e. omega arith

-- A stop keeps the invariant.
pub stop-Inv :
    (call : Call) (id : String) (meter_stop : ℤ) (reason : String) (s : Service)
    → Inv s
    → Inv (stop_transaction call id meter_stop reason s).1
unfolding stop_transaction stopped_row
stop-Inv call id meter_stop reason s v = elim (stop-cases call id meter_stop reason s.rows) [
  | inr (e, failed) ↦ rw failed v
  | inl updated ↦ rw updated (record {
    below =
        update_where-All (λ row. IsBelow s.next_id row.numeric_id) (λ row. row.id == id)
          (stopped_row call meter_stop reason) s.rows (λ row h. h) v.below;
    distinct =
        update_where-AllPairs IdsDiffer (λ row. row.id == id) (stopped_row call meter_stop reason)
          s.rows (λ x y h. h) (λ x y h. h) v.distinct;
    bounded = v.bounded;
  })
]

-- From any table whose ids fit in the column and are not shared, a start of the process whose query
-- succeeds establishes the invariant, and leaves the table alone.
pub init_counter-Inv :
    (call : Call) (s : Service)
    → call.failure ≡ none
    → All (λ row. IsBelow integer_limit row.numeric_id) s.rows
    → AllPairs IdsDiffer s.rows
    → Inv (init_counter call s).1
unfolding init_counter max_numeric_id
init_counter-Inv call s works fit distinct =
    rw (works, init_counter, max_numeric_id)
      (record {
        below = simp add-one (max_of-IsBelow 0 s.rows);
        distinct = distinct;
        bounded = omega (arith, max_of-lt integer_limit 0 s.rows (omega arith) fit);
      })
