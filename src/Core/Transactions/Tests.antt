-- ===== src/Core/Transactions/Tests.antt =====
-- A service with two stored transactions: starts, a stop, a failed INSERT and a restart.
use ocpp_simulator.Base.{
  ℕ, pos, ◌<◌, ◌≤◌, ◌^◌, All, ◌≡◌, ◌≢◌, refl, String, eq_iff, List, [], ◌∷◌, none, some, AllPairs,
  arith,
}
use ocpp_simulator.Result.{external}
use ocpp_simulator.Core.Store.{Transaction}
use ocpp_simulator.Core.Transactions.{
  Service, transaction_of, start, stop_transaction, init_counter,
}
use ocpp_simulator.Core.Transactions.Counter.{Inv}
use ocpp_simulator.Core.Transactions.Restarts.{
  Operation, starts, stops, restarts, granted, granted-distinct, granted-bounded,
}
use ocpp_simulator.Core.Transactions.Interleaved.{
  Threads, Reach, idle, start_at, call_of, rollback_shares_id,
}

abbrev stored : String → String → ℕ → Transaction
stored uuid point n = record (transaction_of (start_at point) n) { id = uuid }

abbrev service : Service
service = record { next_id = 5; rows = stored "a" "CP-1" 2 ∷ stored "b" "CP-2" 4 ∷ [] }

service-Inv : Inv service
unfolding transaction_of
service-Inv = record { below = omega arith; distinct = omega arith; bounded = omega arith }

-- The id of a failed start goes to the next one, and a restart goes on behind the stored ids.
abbrev history : List Operation
history =
    starts (call_of "c" none) (start_at "CP-1")
    ∷ starts (call_of "d" (some (external "down"))) (start_at "CP-1")
    ∷ stops (call_of "" none) "c" (pos 10) "Local"
    ∷ restarts "" ""
    ∷ starts (call_of "e" none) (start_at "CP-2")
    ∷ []

granted-history : granted history service ≡ 5 ∷ 6 ∷ []
unfolding granted start transaction_of stop_transaction init_counter
granted-history = refl

granted-distinct_example : AllPairs (λ n m. n ≢ m) (granted history service)
granted-distinct_example = granted-distinct history service service-Inv

granted-bounded_example : All (λ n. (1 ≤ n) × (n < 2 ^ 31)) (granted history service)
granted-bounded_example = granted-bounded history service (omega arith)

rollback_shares_id_example :
    (u : Threads) × Reach idle u
    × (x : Transaction) × (y : Transaction) × (n : ℕ) × (u.service.rows ≡ x ∷ y ∷ [])
    × (x.charge_point_id ≡ "CP-1")
    × (y.charge_point_id ≡ "CP-2")
    × (x.numeric_id ≡ some n)
    × (y.numeric_id ≡ some n)
rollback_shares_id_example = rollback_shares_id "CP-1" "CP-2" (ground (arith, eq_iff "CP-1" "CP-2"))
