-- ===== src/Core/Store/Queries/Assigned.antt =====
-- AssignNumericID gives a row at most one numeric id.
use ocpp_simulator.Base.{
  ℕ, ◌≡◌, refl, String, List, [], ◌∷◌, Option, none, some, arith, Bool-cases, ◌⊎◌, Option-cases,
  any, inl, inr,
}
use ocpp_simulator.Result.{Error, ok, err, quoted, external}
use ocpp_simulator.Core.Store.{Transaction, Call, clashes, fits_numeric, find, update_where}
use ocpp_simulator.Core.Store.Queries.{
  awaits_id, assigned_row, assign_error, assign_to, assign_numeric_id,
}

-- Once assigned, no row of the id awaits one.
find-assigned :
    (call : Call) (id : String) (n : ℕ) (status : String) (rows : List Transaction)
    → find (awaits_id id) (update_where (awaits_id id) (assigned_row call n status) rows) ≡ none
unfolding find update_where assigned_row
find-assigned call id n status [] = refl
find-assigned call id n status (row ∷ rows) = ground (arith, find-assigned call id n status rows)

assign_to-cases :
    (call : Call) (id : String) (n : ℕ) (status : String) (o : Option Transaction)
    (rows : List Transaction)
    → (assign_to call id n status o rows
        ≡ (ok tt, update_where (awaits_id id) (assigned_row call n status) rows))
      ⊎ ((e : Error) × (assign_to call id n status o rows ≡ (err e, rows)))
unfolding assign_to
assign_to-cases call id n status none rows = inr (_, refl)
assign_to-cases call id n status (some row) rows =
    elim (Bool-cases (any (clashes (some n) row) rows)) [
      | inl taken ↦ inr (assign_error (external "constraint violation"), rw (taken, assign_to) refl)
      | inr free ↦ inl (rw (free, assign_to) refl)
    ]

-- AssignNumericID updates the rows that await an id, or changes nothing.
assign_numeric_id-cases :
    (call : Call) (id : String) (n : ℕ) (status : String) (rows : List Transaction)
    → (assign_numeric_id call id n status rows
        ≡ (ok tt, update_where (awaits_id id) (assigned_row call n status) rows))
      ⊎ ((e : Error) × (assign_numeric_id call id n status rows ≡ (err e, rows)))
unfolding assign_numeric_id
assign_numeric_id-cases call id n status rows = elim (Option-cases call.failure) [
  | inr (e, failed) ↦ inr (assign_error e, rw (failed, assign_numeric_id) refl)
  | inl works ↦ elim (Bool-cases (fits_numeric (some n))) [
    | inl fits ↦ rw (works, fits) (assign_to-cases call id n status (find (awaits_id id) rows) rows)
    | inr large ↦ inr (assign_error (external "integer out of range"), rw (works, large) refl)
  ]
]

-- Where no row awaits an id, it answers an error.
assign_numeric_id-none :
    (call : Call) (id : String) (n : ℕ) (status : String) (rows : List Transaction)
    → find (awaits_id id) rows ≡ none
    → (e : Error) × (assign_numeric_id call id n status rows ≡ (err e, rows))
unfolding assign_numeric_id assign_to
assign_numeric_id-none call id n status rows unset = elim (Option-cases call.failure) [
  | inr (e, failed) ↦ (assign_error e, rw failed refl)
  | inl works ↦ elim (Bool-cases (fits_numeric (some n))) [
    | inl fits ↦ (
      quoted "transaction already has numeric_id or does not exist" id,
      rw (works, fits, unset) refl,
    )
    | inr large ↦ (assign_error (external "integer out of range"), rw (works, large) refl)
  ]
]

-- A row that has been assigned a numeric id keeps it: behind an AssignNumericID that succeeds,
-- another for the same id answers an error and leaves the table as it is.
pub assign_numeric_id-once :
    (call later : Call) (id : String) (n m : ℕ) (status status' : String) (rows : List Transaction)
    → (assign_numeric_id call id n status rows).0 ≡ ok tt
    → (e : Error) × (assign_numeric_id later id m status'
          (assign_numeric_id call id n status rows).1
        ≡ (err e, (assign_numeric_id call id n status rows).1))
assign_numeric_id-once call later id n m status status' rows done =
    elim (assign_numeric_id-cases call id n status rows) [
      | inl assigned ↦
          rw assigned
            (assign_numeric_id-none later id m status' _ (find-assigned call id n status rows))
      | inr (e, refused) ↦ cc
    ]
