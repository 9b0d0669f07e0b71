-- ===== src/PendingCalls.antt =====
-- packages/ocpp-protocol/pkg/pendingcalls: the CALLs that wait for an answer, by their unique id.
-- An instant is a number. What time.Now reads for a call is an argument, one reading for each.
pub mod History
mod Tests
use ocpp_simulator.Base.{ℕ, String, Bool, ltb, List, [], ◌∷◌, Option, none, some, if◌then◌else◌}
use ocpp_simulator.Base.Assoc.{Assoc, lookup, insert, remove}

pub record PendingCall : Type 0 where
  pub unique_id : String
  pub action : String
  pub sent_at : ℕ
  pub timeout_at : ℕ

-- PendingCall.IsExpired
unfoldable pub is_expired : ℕ → PendingCall → Bool
is_expired now c = ltb c.timeout_at now

-- Registry.Register
unfoldable pub register_call : PendingCall → Assoc PendingCall → Assoc PendingCall
unfolding insert
register_call c calls = insert c.unique_id c calls

-- Registry.Resolve
unfoldable pub resolve : String → Assoc PendingCall → Option PendingCall × Assoc PendingCall
unfolding lookup remove
resolve id calls = elim (lookup id calls) [
  | none ↦ (none, calls)
  | some c ↦ (some c, remove id calls)
]

-- Registry.Expired: Go visits the map in any order, here it is the order of the list.
unfoldable pub expired :
    (PendingCall → ℕ) → Assoc PendingCall → List PendingCall × Assoc PendingCall
unfolding is_expired
expired now [] = ([], [])
expired now ((id, c) ∷ calls) =
    let (out, kept) = expired now calls in
    if is_expired (now c) c then (c ∷ out, kept) else (out, (id, c) ∷ kept)
