-- ===== src/Core/Transactions/Steady/Tests.antt =====
-- Two starts that hold their ids at once, of which the later one is stored first.
use ocpp_simulator.Base.{refl, [], ◌∷◌, none, arith}
use ocpp_simulator.Core.Store.{create}
use ocpp_simulator.Core.Transactions.{take_id, create_row}
use ocpp_simulator.Core.Transactions.Counter.{Inv}
use ocpp_simulator.Core.Transactions.Interleaved.{Threads, takes, inserts, idle, start_at, call_of}
use ocpp_simulator.Core.Transactions.Steady.{Forward, here, next, IsApart, Forward-IsApart}

idle-Inv : Inv idle.service
idle-Inv = record { below = tt; distinct = tt; bounded = omega arith }

abbrev one_held : Threads
one_held = record {
  service = (take_id idle.service).1;
  inflight = (start_at "CP-1", 1) ∷ [];
  failed = [];
}

abbrev both_held : Threads
both_held = record {
  service = (take_id one_held.service).1;
  inflight = (start_at "CP-2", 2) ∷ (start_at "CP-1", 1) ∷ [];
  failed = [];
}

abbrev later_stored : Threads
later_stored = record {
  service = (create_row (call_of "u" none) (start_at "CP-2") 2 both_held.service).1;
  inflight = (start_at "CP-1", 1) ∷ [];
  failed = [];
}

forward : Forward idle later_stored
unfolding take_id create_row create
forward =
    next (next (next here (takes idle (start_at "CP-1")) tt) (takes one_held (start_at "CP-2")) tt)
      (inserts both_held (call_of "u" none) (start_at "CP-2") 2 "u" [] ((start_at "CP-1", 1) ∷ [])
        refl refl)
      tt

Forward-IsApart_example : IsApart later_stored
Forward-IsApart_example = Forward-IsApart idle.service idle-Inv forward
