-- ===== src/Core/Store/Rows.antt =====
-- What the statements on the table guarantee of its rows.
use ocpp_simulator.Base.{
  ℕ, suc, ◌≤◌, ◌<◌, ◌≡◌, ◌≢◌, refl, ℤ, String, ◌==◌, eq_iff, Bool, true, false, ◌⊎◌, inl, inr, List,
  [], ◌∷◌, ◌++◌, Option, none, some, All, any, AllPairs, All-map, arith, Bool-cases, if_keeps,
  if◌then◌else◌,
}
use ocpp_simulator.Result.{Error, ok, err, wrap, external}
use ocpp_simulator.Core.Store.{
  Transaction, Call, clashes, admits, fits_integer, fits_numeric, new_row, insert_row, create,
  update_where, stopped_row, stop, stop_rows, max_of, larger,
}

-- INSERT adds the row at the end, if the constraints admit it, or changes nothing.
pub create-cases :
    (call : Call) (t : Transaction) (rows : List Transaction)
    → ((admits (new_row call t) rows ≡ true)
        × (create call t rows ≡ (ok (new_row call t).id, rows ++ (new_row call t ∷ []))))
      ⊎ ((e : Error) × (create call t rows ≡ (err e, rows)))
unfolding create insert_row
create-cases call t rows = cases call.failure
  where
    cases :
        (failure : Option Error)
        → ((admits (new_row call t) rows ≡ true)
            × (insert_row failure (new_row call t) rows
                ≡ (ok (new_row call t).id, rows ++ (new_row call t ∷ []))))
          ⊎ ((e : Error) × (insert_row failure (new_row call t) rows ≡ (err e, rows)))
    cases (some e) = inr (_, refl)
    cases none = elim (Bool-cases (admits (new_row call t) rows)) [
      | inl admitted ↦ inl (admitted, rw (admitted, insert_row))
      | inr refused ↦
          inr
            (wrap "insert transaction" (external "constraint violation"), rw (refused, insert_row))
    ]

-- What the constraints of the table keep apart: two rows differ in the primary key, and those with
-- a numeric id of one charge point differ in it.
abbrev pub KeysDiffer : Transaction → Transaction → Type 0
KeysDiffer row t = (row.id ≢ t.id) × (clashes t.numeric_id t row ≡ false)

any-false :
    (p : Transaction → Bool) (rows : List Transaction)
    → any p rows ≡ false
    → All (λ row. p row ≡ false) rows
unfolding any
any-false p [] h = tt
any-false p (row ∷ rows) h = (ground arith, any-false p rows (ground arith))

pub admits-KeysDiffer :
    (t : Transaction) (rows : List Transaction)
    → admits t rows ≡ true
    → All (λ row. KeysDiffer row t) rows
unfolding admits
admits-KeysDiffer t rows h =
    zip_All rows (any-false (λ row. row.id == t.id) rows (ground arith))
      (any-false (clashes t.numeric_id t) rows (ground arith))
  where
    zip_All :
        (rows : List Transaction)
        → All (λ row. (row.id == t.id) ≡ false) rows
        → All (λ row. clashes t.numeric_id t row ≡ false) rows
        → All (λ row. KeysDiffer row t) rows
    zip_All [] _ _ = tt
    zip_All (row ∷ rows) (p, ps) (q, qs) =
        ((λ e. ground (arith, eq_iff row.id t.id), q), zip_All rows ps qs)

pub admits-fits :
    (t : Transaction) (rows : List Transaction)
    → admits t rows ≡ true
    → fits_numeric t.numeric_id ≡ true
unfolding admits
admits-fits t rows h = ground arith

-- A numeric id below the bound, if there is one.
abbrev pub IsBelow : ℕ → Option ℕ → Type 0
IsBelow n none = Unit
IsBelow n (some m) = m < n

pub IsBelow-mono : (a b : ℕ) (o : Option ℕ) → a ≤ b → IsBelow a o → IsBelow b o
IsBelow-mono a b none _ _ = tt
IsBelow-mono a b (some m) h k = omega arith

larger_bounds : (m : ℕ) (o : Option ℕ) → (m ≤ larger m o) × IsBelow (suc (larger m o)) o
unfolding larger
larger_bounds m none = (omega arith, tt)
larger_bounds m (some n) = ground arith

max_of-ge : (m : ℕ) (rows : List Transaction) → m ≤ max_of m rows
unfolding max_of
max_of-ge m [] = omega arith
max_of-ge m (row ∷ rows) =
    omega (arith, (larger_bounds m row.numeric_id).0, max_of-ge (larger m row.numeric_id) rows)

-- The numeric ids of the rows lie below the successor of the maximum.
pub max_of-IsBelow :
    (m : ℕ) (rows : List Transaction)
    → All (λ row. IsBelow (suc (max_of m rows)) row.numeric_id) rows
unfolding max_of
max_of-IsBelow m [] = tt
max_of-IsBelow m (row ∷ rows) = (
  IsBelow-mono (suc (larger m row.numeric_id)) _ row.numeric_id
      (omega (arith, max_of-ge (larger m row.numeric_id) rows)) (larger_bounds m row.numeric_id).1,
  max_of-IsBelow (larger m row.numeric_id) rows,
)

-- The maximum of ids that fit in the column fits.
pub max_of-lt :
    (n m : ℕ) (rows : List Transaction)
    → m < n
    → All (λ row. IsBelow n row.numeric_id) rows
    → max_of m rows < n
unfolding max_of larger
max_of-lt n m [] h _ = h
max_of-lt n m (row ∷ rows) h (k, ks) =
    max_of-lt n (larger m row.numeric_id) rows (larger-lt row.numeric_id k) ks
  where
    larger-lt : (o : Option ℕ) → IsBelow n o → larger m o < n
    larger-lt none _ = h
    larger-lt (some j) k = ground arith

-- UPDATE keeps what it keeps of each row.
pub update_where-All {ℓ} :
    (P : Transaction → Type ℓ) (p : Transaction → Bool) (f : Transaction → Transaction)
    (rows : List Transaction)
    → ((row : Transaction) → P row → P (f row))
    → All P rows
    → All P (update_where p f rows)
unfolding update_where
update_where-All P p f [] k _ = tt
update_where-All P p f (row ∷ rows) k (h, hs) =
    (if_keeps P (p row) (k row h) h, update_where-All P p f rows k hs)

-- An UPDATE that leaves what a relation looks at keeps the relation between all pairs.
pub update_where-AllPairs {ℓ} :
    (R : Transaction → Transaction → Type ℓ) (p : Transaction → Bool)
    (f : Transaction → Transaction) (rows : List Transaction)
    → ((x y : Transaction) → R x y → R (f x) y)
    → ((x y : Transaction) → R x y → R x (f y))
    → AllPairs R rows
    → AllPairs R (update_where p f rows)
unfolding update_where
update_where-AllPairs R p f [] left right _ = tt
update_where-AllPairs R p f (row ∷ rows) left right (h, hs) = (
  update_where-All (R (if p row then f row else row)) p f rows (λ y k. right _ y k)
      (if_keeps (λ x. All (R x) rows) (p row) (All-map (R row) (R (f row)) rows (left row) h) h),
  update_where-AllPairs R p f rows left right hs,
)

-- Stop sets the stop columns of the row with the id, or changes nothing.
pub stop-cases :
    (call : Call) (id : String) (meter_stop : ℤ) (reason : String) (rows : List Transaction)
    → (stop call id meter_stop reason rows
        ≡ (ok tt, update_where (λ row. row.id == id) (stopped_row call meter_stop reason) rows))
      ⊎ ((e : Error) × (stop call id meter_stop reason rows ≡ (err e, rows)))
unfolding stop stop_rows
stop-cases call id meter_stop reason rows = cases call.failure
  where
    cases :
        (failure : Option Error)
        → (stop_rows failure call id meter_stop reason rows
            ≡ (ok tt, update_where (λ row. row.id == id) (stopped_row call meter_stop reason) rows))
          ⊎ ((e : Error) × (stop_rows failure call id meter_stop reason rows ≡ (err e, rows)))
    cases (some e) = inr (e, refl)
    cases none = elim (Bool-cases (fits_integer meter_stop)) [
      | inl fits ↦ inl (rw (fits, stop_rows))
      | inr too_big ↦ inr (external "integer out of range", rw (too_big, stop_rows))
    ]
