-- ===== src/Core/Transactions/Interleaved.antt =====
-- Starts that run side by side: the three steps of each may fall between those of the others.
use ocpp_simulator.Base.{
  ℕ, pos, ◌≡◌, ◌≢◌, refl, subst, ap, String, ◌==◌, eq_iff, false, List, [], ◌∷◌, ◌++◌, Option, none,
  some, arith,
}
use ocpp_simulator.Result.{Error, ok, err, external}
use ocpp_simulator.Core.Store.{Transaction, Call, create}
use ocpp_simulator.Core.Transactions.{
  Service, StartInput, take_id, roll_back, transaction_of, create_row,
}

-- The service, the starts that hold an id and wait for their INSERT, and the ids of those whose
-- INSERT failed and that have still to roll the counter back.
pub record Threads : Type 0 where
  pub service : Service
  pub inflight : List (StartInput × ℕ)
  pub failed : List ℕ

pub data Step : Threads → Threads → Type 0 where
  takes :
      (t : Threads) (input : StartInput)
      → Step t (record t {
        service = (take_id t.service).1;
        inflight = (input, (take_id t.service).0) ∷ t.inflight;
      })
  inserts :
      (t : Threads) (call : Call) (input : StartInput) (n : ℕ) (id : String)
      (before after : List (StartInput × ℕ))
      → t.inflight ≡ before ++ ((input, n) ∷ after)
      → (create_row call input n t.service).0 ≡ ok id
      → Step t
          (record t { service = (create_row call input n t.service).1; inflight = before ++ after })
  fails :
      (t : Threads) (call : Call) (input : StartInput) (n : ℕ) (e : Error)
      (before after : List (StartInput × ℕ))
      → t.inflight ≡ before ++ ((input, n) ∷ after)
      → (create_row call input n t.service).0 ≡ err e
      → Step t (record t {
        service = (create_row call input n t.service).1;
        inflight = before ++ after;
        failed = n ∷ t.failed;
      })
  rolls_back :
      (t : Threads) (n : ℕ) (before after : List ℕ)
      → t.failed ≡ before ++ (n ∷ after)
      → Step t (record t { service = roll_back n t.service; failed = before ++ after })

pub data Reach (s : Threads) : Threads → Type 0 where
  here : Reach s s
  next : {t u : Threads} → Reach s t → Step t u → Reach s u

-- A service at its first start, and a start on connector 1 of a charge point.
abbrev pub idle : Threads
idle = record { service = record { next_id = 1; rows = [] }; inflight = []; failed = [] }

abbrev pub start_at : String → StartInput
start_at charge_point_id = record {
  charge_point_id = charge_point_id;
  evse_id = pos 1;
  connector_number = pos 1;
  id_tag = "TAG";
  meter_start = pos 0;
  ocpp_version = "1.6J";
}

abbrev pub call_of : String → Option Error → Call
call_of uuid failure = record { now = ""; uuid = uuid; failure = failure }

abbrev row_of : String → String → ℕ → Transaction
row_of uuid charge_point_id n = record (transaction_of (start_at charge_point_id) n) { id = uuid }

-- One start takes 1, a second one, of charge point `a`, takes 2 and is stored; the first one fails
-- and rolls the counter back to 1. Then a start of `c` takes 1 and is stored.
abbrev after_rollback : String → String → Threads
after_rollback a c = record {
  service = record { next_id = 2; rows = row_of "u2" a 2 ∷ row_of "u1" c 1 ∷ [] };
  inflight = [];
  failed = [];
}

before_insert : String → String → Threads
before_insert a c = record {
  service = record { next_id = 2; rows = row_of "u2" a 2 ∷ [] };
  inflight = (start_at c, 1) ∷ [];
  failed = [];
}

-- The failed start has rolled back, and the next one holds the id 1.
before_reachable : (a c : String) → Reach idle (before_insert a c)
unfolding take_id create_row roll_back create before_insert
before_reachable a c =
    next
      (next
        (next
          (next (next (next here (takes _ (start_at c))) (takes _ (start_at a)))
            (inserts _ (call_of "u2" none) (start_at a) 2 "u2" [] _ refl refl))
          (fails _ (call_of "u0" (some (external "down"))) (start_at c) 1 _ [] [] refl refl))
        (rolls_back _ 1 [] [] refl))
      (takes _ (start_at c))

-- The row of the second start of `b`, and the state in which it is stored beside that of `a`.
shared : String → String → Threads
shared a b = record {
  service = record { next_id = 3; rows = row_of "u2" a 2 ∷ row_of "u3" b 2 ∷ [] };
  inflight = (start_at b, 1) ∷ [];
  failed = [];
}

before_shared : String → String → Threads
before_shared a b = record {
  service = record { next_id = 3; rows = row_of "u2" a 2 ∷ [] };
  inflight = (start_at b, 2) ∷ (start_at b, 1) ∷ [];
  failed = [];
}

insert_shared :
    (a b : String)
    → a ≢ b
    → create_row (call_of "u3" none) (start_at b) 2 (before_shared a b).service
      ≡ (ok "u3", (shared a b).service)
unfolding create_row create before_shared shared
insert_shared a b h = let other : (a == b) ≡ false = ground (arith, eq_iff a b) in rw other refl

insert_shared-Step : (a b : String) → a ≢ b → Step (before_shared a b) (shared a b)
unfolding before_shared shared
insert_shared-Step a b h =
    subst
      (λ r.
        Step (before_shared a b)
          (record (before_shared a b) { service = r.1; inflight = (start_at b, 1) ∷ [] }))
      (insert_shared a b h)
      (inserts (before_shared a b) (call_of "u3" none) (start_at b) 2 "u3" [] _ refl
        (ap (λ r. r.0) (insert_shared a b h)))

take_shared-Step : (a b : String) → Step (before_insert a b) (before_shared a b)
unfolding take_id before_insert before_shared
take_shared-Step a b = takes (before_insert a b) (start_at b)

-- In the same way two different charge points are given one transaction id: from the first start
-- of a service a table is reachable that holds one row for each, with the same numeric id.
pub rollback_shares_id :
    (a b : String)
    → a ≢ b
    → (u : Threads) × Reach idle u
      × (x : Transaction) × (y : Transaction) × (n : ℕ) × (u.service.rows ≡ x ∷ y ∷ [])
      × (x.charge_point_id ≡ a)
      × (y.charge_point_id ≡ b)
      × (x.numeric_id ≡ some n)
      × (y.numeric_id ≡ some n)
unfolding shared transaction_of
rollback_shares_id a b h = (
  shared a b,
  next (next (before_reachable a b) (take_shared-Step a b)) (insert_shared-Step a b h),
  row_of "u2" a 2,
  row_of "u3" b 2,
  2,
  refl,
  refl,
  refl,
  refl,
  refl,
)
