-- ===== src/Core/MessageLogs/Rows.antt =====
-- What an INSERT into the message log adds.
use ocpp_simulator.Base.{
  ◌≡◌, refl, true, ◌⊎◌, inl, inr, List, [], ◌∷◌, ◌++◌, none, Bool-cases, Option-cases,
}
use ocpp_simulator.Core.Store.{Call}
use ocpp_simulator.Core.MessageLogs.{MessageLog, new_log, admits_log, insert_log, create_log}

-- The row is added at the end, or nothing changes.
pub create_log-cases :
    (call : Call) (m : MessageLog) (logs : List MessageLog)
    → ((create_log call m logs).1 ≡ logs ++ (new_log call m ∷ []))
      ⊎ ((create_log call m logs).1 ≡ logs)
unfolding create_log insert_log
create_log-cases call m logs = elim (Option-cases call.failure) [
  | inr (e, failed) ↦ inr (rw (failed, insert_log) refl)
  | inl works ↦ elim (Bool-cases (admits_log (new_log call m) logs)) [
    | inl admitted ↦ inl (rw (works, insert_log, admitted) refl)
    | inr refused ↦ inr (rw (works, insert_log, refused) refl)
  ]
]

-- A statement that does not fail on its own adds a row that the table admits.
pub create_log-admitted :
    (call : Call) (m : MessageLog) (logs : List MessageLog)
    → call.failure ≡ none
    → admits_log (new_log call m) logs ≡ true
    → (create_log call m logs).1 ≡ logs ++ (new_log call m ∷ [])
unfolding create_log insert_log
create_log-admitted call m logs works admitted = rw (works, insert_log, admitted) refl
