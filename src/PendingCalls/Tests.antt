-- ===== src/PendingCalls/Tests.antt =====
-- A history of three calls: one is answered, one expires, one still waits.
use ocpp_simulator.Base.{ℕ, ◌≡◌, refl, String, List, [], ◌∷◌, ◌++◌}
use mathlib.Core.List.{Perm}
use ocpp_simulator.Base.Assoc.{lookup}
use ocpp_simulator.PendingCalls.{PendingCall, register_call, resolve, expired}
use ocpp_simulator.PendingCalls.History.{
  Operation, registers, resolves, expires, step, run, all_registered, values, AllFresh, run-empty,
}

abbrev sent : String → ℕ → PendingCall
sent id limit = record { unique_id = id; action = "Heartbeat"; sent_at = 0; timeout_at = limit }

abbrev history : List Operation
history =
    registers (sent "a" 10)
    ∷ registers (sent "b" 20)
    ∷ resolves "a"
    ∷ registers (sent "c" 30)
    ∷ expires (λ c. 21)
    ∷ resolves "a"
    ∷ []

run-history : run history [] ≡ (sent "a" 10 ∷ sent "b" 20 ∷ [], ("c", sent "c" 30) ∷ [])
unfolding run step register_call resolve expired
run-history = refl

fresh : AllFresh history []
unfolding step register_call resolve expired lookup
fresh = (refl, (refl, (tt, (refl, (tt, (tt, tt))))))

run-empty_example : Perm (all_registered history) ((run history []).0 ++ values (run history []).1)
run-empty_example = run-empty history fresh
