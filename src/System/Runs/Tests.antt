-- ===== src/System/Runs/Tests.antt =====
-- Three runs, the second of which does not start.
use ocpp_simulator.Base.{List, [], ◌∷◌, some}
use ocpp_simulator.Result.{external}
use ocpp_simulator.Core.Transactions.{Service}
use ocpp_simulator.Boot.Tests.{core, every_entry}
use ocpp_simulator.System.History.Tests.{deliveries}
use ocpp_simulator.System.Runs.{Run}

abbrev runs : List Run
runs =
    record { surroundings = core; visits = every_entry; deliveries = deliveries }
    ∷ record {
      surroundings = record core { goose_up = some (external "goose") };
      visits = every_entry;
      deliveries = deliveries;
    }
    ∷ record { surroundings = core; visits = every_entry; deliveries = [] }
    ∷ []

abbrev fresh : Service
fresh = record { next_id = 1; rows = [] }
