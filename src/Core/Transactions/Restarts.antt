-- ===== src/Core/Transactions/Restarts.antt =====
-- Any history of starts, stops and restarts of the process, one after the other.
use ocpp_simulator.Base.{
  ℕ, ◌<◌, ◌≤◌, ◌^◌, ◌≡◌, ◌≢◌, refl, ℤ, String, ◌==◌, ◌⊎◌, inl, inr, List, [], ◌∷◌, ◌++◌, none, some,
  All, All-map, AllPairs, arith, Bool, subst, sym, ap, if_keeps,
}
use ocpp_simulator.Result.{Result, ok, err}
use ocpp_simulator.Core.Store.{Transaction, Call, integer_limit, new_row, stopped_row, update_where}
use ocpp_simulator.Core.Store.Rows.{IsBelow, IsBelow-mono, stop-cases}
use ocpp_simulator.Core.Transactions.{
  Service, StartInput, StartResult, init_counter, transaction_of, start, stop_transaction,
}
use ocpp_simulator.Core.Transactions.Counter.{
  Inv, start-cases, start-Inv, stop-Inv, init_counter-Inv,
}

-- A restart is a new Service over the stored table, whose counter is read from it: the process
-- serves no request if that query fails.
pub data Operation : Type 0 where
  starts : Call → StartInput → Operation
  stops : Call → String → ℤ → String → Operation
  restarts : (now uuid : String) → Operation

unfoldable pub restart : String → String → Service → Service
restart now uuid s =
    (init_counter (record { now = now; uuid = uuid; failure = none })
      (record { next_id = 0; rows = s.rows })).1

unfoldable pub apply : Operation → Service → Service
unfolding restart
apply (starts call input) s = (start call input s).1
apply (stops call id meter_stop reason) s = (stop_transaction call id meter_stop reason s).1
apply (restarts now uuid) s = restart now uuid s

id_or_none : Result StartResult → List ℕ → List ℕ
id_or_none (err e) later = later
id_or_none (ok r) later = r.transaction_id ∷ later

-- The transaction ids that the successful starts of a history answer, in order.
unfoldable pub granted : List Operation → Service → List ℕ
unfolding id_or_none apply
granted [] s = []
granted (starts call input ∷ ops) s =
    id_or_none (start call input s).0 (granted ops (apply (starts call input) s))
granted (op ∷ ops) s = granted ops (apply op s)

pub apply-Inv : (op : Operation) (s : Service) → Inv s → Inv (apply op s)
unfolding apply
apply-Inv (starts call input) s v = start-Inv call input s v
apply-Inv (stops call id meter_stop reason) s v = stop-Inv call id meter_stop reason s v
apply-Inv (restarts now uuid) s v =
    init_counter-Inv _ (record { next_id = 0; rows = s.rows }) refl
      (All-map (λ row. IsBelow s.next_id row.numeric_id)
        (λ row. IsBelow integer_limit row.numeric_id) s.rows
        (λ row. IsBelow-mono s.next_id integer_limit row.numeric_id v.bounded) v.below)
      v.distinct

-- A row carries the id.
abbrev Stored : ℕ → List Transaction → Type 0
Stored n [] = ⊥
Stored n (row ∷ rows) = (row.numeric_id ≡ some n) ⊎ Stored n rows

Stored-append : (n : ℕ) (rows more : List Transaction) → Stored n rows → Stored n (rows ++ more)
Stored-append n (row ∷ rows) more (inl e) = inl e
Stored-append n (row ∷ rows) more (inr h) = inr (Stored-append n rows more h)
Stored-append n [] more h = absurd h

Stored-last :
    (n : ℕ) (rows : List Transaction) (row : Transaction)
    → row.numeric_id ≡ some n
    → Stored n (rows ++ (row ∷ []))
Stored-last n [] row e = inl e
Stored-last n (r ∷ rows) row e = inr (Stored-last n rows row e)

Stored-stopped :
    (n : ℕ) (p : Transaction → Bool) (call : Call) (meter_stop : ℤ) (reason : String)
    (rows : List Transaction)
    → Stored n rows
    → Stored n (update_where p (stopped_row call meter_stop reason) rows)
unfolding update_where stopped_row
Stored-stopped n p call meter_stop reason [] h = absurd h
Stored-stopped n p call meter_stop reason (row ∷ rows) (inl e) =
    inl (if_keeps (λ (r : Transaction). r.numeric_id ≡ some n) (p row) e e)
Stored-stopped n p call meter_stop reason (row ∷ rows) (inr h) =
    inr (Stored-stopped n p call meter_stop reason rows h)

-- Ids stay stored: no operation deletes a row.
apply-Stored : (op : Operation) (s : Service) (n : ℕ) → Stored n s.rows → Stored n (apply op s).rows
unfolding apply stop_transaction init_counter
apply-Stored (starts call input) s n h = elim (start-cases call input s) [
  | inl (_, e) ↦ subst (λ r. Stored n r.1.rows) (sym e) (Stored-append n s.rows _ h)
  | inr (_, e) ↦ subst (λ r. Stored n r.1.rows) (sym e) h
]
apply-Stored (stops call id meter_stop reason) s n h =
    elim (stop-cases call id meter_stop reason s.rows) [
      | inl e ↦
          subst (λ r. Stored n r.1) (sym e)
            (Stored-stopped n (λ row. row.id == id) call meter_stop reason s.rows h)
      | inr (_, e) ↦ subst (λ r. Stored n r.1) (sym e) h
    ]
apply-Stored (restarts now uuid) s n h = h

-- A stored id lies below the counter.
Stored-lt :
    (n k : ℕ) (rows : List Transaction)
    → Stored n rows
    → All (λ row. IsBelow k row.numeric_id) rows
    → n < k
Stored-lt n k [] h _ = absurd h
Stored-lt n k (row ∷ rows) (inl e) (p, _) = rw e at p
Stored-lt n k (row ∷ rows) (inr h) (_, ps) = Stored-lt n k rows h ps

-- A stored id is not granted again.
granted-ne-Stored :
    (ops : List Operation) (s : Service) (n : ℕ)
    → Inv s
    → Stored n s.rows
    → All (λ m. n ≢ m) (granted ops s)
unfolding granted id_or_none apply new_row transaction_of
granted-ne-Stored [] s n v h = tt
granted-ne-Stored (starts call input ∷ ops) s n v h =
    let later =
      granted-ne-Stored ops (apply (starts call input) s) n (apply-Inv (starts call input) s v)
        (apply-Stored (starts call input) s n h) in
    elim (start-cases call input s) [
      | inl (_, e) ↦
          subst (λ r. All (λ m. n ≢ m) (id_or_none r (granted ops (apply (starts call input) s))))
            (sym (ap (λ r. r.0) e))
            (λ same. omega (arith, Stored-lt n s.next_id s.rows h v.below), later)
      | inr (_, e) ↦
          subst (λ r. All (λ m. n ≢ m) (id_or_none r (granted ops (apply (starts call input) s))))
            (sym (ap (λ r. r.0) e)) later
    ]
granted-ne-Stored (stops call id meter_stop reason ∷ ops) s n v h =
    let op = stops call id meter_stop reason in
    granted-ne-Stored ops (apply op s) n (apply-Inv op s v) (apply-Stored op s n h)
granted-ne-Stored (restarts now uuid ∷ ops) s n v h =
    let op = restarts now uuid in
    granted-ne-Stored ops (apply op s) n (apply-Inv op s v) (apply-Stored op s n h)

-- Over any history of starts, stops and restarts from a service that meets the invariant, no
-- transaction id is granted twice, and none that the table holds already.
pub granted-distinct :
    (ops : List Operation) (s : Service) → Inv s → AllPairs (λ n m. n ≢ m) (granted ops s)
unfolding granted id_or_none apply new_row transaction_of
granted-distinct [] s v = tt
granted-distinct (starts call input ∷ ops) s v =
    let s' = apply (starts call input) s in
    let later = granted-distinct ops s' (apply-Inv (starts call input) s v) in
    elim (start-cases call input s) [
      | inl (_, e) ↦
          subst (λ r. AllPairs (λ n m. n ≢ m) (id_or_none r (granted ops s')))
            (sym (ap (λ r. r.0) e))
            (
              granted-ne-Stored ops s' s.next_id (apply-Inv (starts call input) s v) (
                  subst (λ r. Stored s.next_id r.1.rows) (sym e)
                    (Stored-last s.next_id s.rows _ refl)),
              later,
            )
      | inr (_, e) ↦
          subst (λ r. AllPairs (λ n m. n ≢ m) (id_or_none r (granted ops s')))
            (sym (ap (λ r. r.0) e)) later
    ]
granted-distinct (stops call id meter_stop reason ∷ ops) s v =
    granted-distinct ops _ (apply-Inv (stops call id meter_stop reason) s v)
granted-distinct (restarts now uuid ∷ ops) s v =
    granted-distinct ops _ (apply-Inv (restarts now uuid) s v)

apply-positive : (op : Operation) (s : Service) → 1 ≤ s.next_id → 1 ≤ (apply op s).next_id
unfolding apply stop_transaction init_counter
apply-positive (starts call input) s h = elim (start-cases call input s) [
  | inl (_, e) ↦ subst (λ r. 1 ≤ r.1.next_id) (sym e) (omega arith)
  | inr (_, e) ↦ subst (λ r. 1 ≤ r.1.next_id) (sym e) h
]
apply-positive (stops call id meter_stop reason) s h = h
apply-positive (restarts now uuid) s h = omega arith

-- Over any history of starts, stops and restarts from a counter of at least 1, each transaction id
-- that is granted is positive and below 2 ^ 31, the limit of the column.
pub granted-bounded :
    (ops : List Operation) (s : Service)
    → 1 ≤ s.next_id
    → All (λ n. (1 ≤ n) × (n < 2 ^ 31)) (granted ops s)
unfolding granted id_or_none
granted-bounded [] s h = tt
granted-bounded (starts call input ∷ ops) s h =
    let s' = apply (starts call input) s in
    let later = granted-bounded ops s' (apply-positive (starts call input) s h) in
    elim (start-cases call input s) [
      | inl (room, e) ↦
          subst (λ r. All (λ n. (1 ≤ n) × (n < 2 ^ 31)) (id_or_none r (granted ops s')))
            (sym (ap (λ r. r.0) e)) ((h, room), later)
      | inr (_, e) ↦
          subst (λ r. All (λ n. (1 ≤ n) × (n < 2 ^ 31)) (id_or_none r (granted ops s')))
            (sym (ap (λ r. r.0) e)) later
    ]
granted-bounded (stops call id meter_stop reason ∷ ops) s h =
    granted-bounded ops _ (apply-positive (stops call id meter_stop reason) s h)
granted-bounded (restarts now uuid ∷ ops) s h =
    granted-bounded ops _ (apply-positive (restarts now uuid) s h)
