-- ===== src/Core/Store/Queries/Tests.antt =====
-- A row without a numeric id is assigned one, and a later assignment is refused.
use ocpp_simulator.Base.{pos, ◌≡◌, refl, List, [], ◌∷◌, none}
use ocpp_simulator.Result.{Error, ok, err}
use ocpp_simulator.Core.Store.{Transaction, Call}
use ocpp_simulator.Core.Store.Queries.{assign_numeric_id}
use ocpp_simulator.Core.Store.Queries.Assigned.{assign_numeric_id-once}

abbrev call : Call
call = record { now = "2026-01-01T00:00:00Z"; uuid = "u"; failure = none }

abbrev pending : List Transaction
pending =
    record {
      id = "t";
      numeric_id = none;
      charge_point_id = "CP1";
      evse_id = pos 1;
      connector_number = pos 1;
      id_tag = "TAG";
      ocpp_version = "1.6J";
      status = "Pending";
      started_at = none;
      stopped_at = none;
      start_meter_wh = pos 0;
      stop_meter_wh = none;
      stop_reason = none;
      created_at = "";
      updated_at = "";
    }
    ∷ []

assigned : (assign_numeric_id call "t" 4 "Active" pending).0 ≡ ok tt
unfolding assign_numeric_id
assigned = refl

assign_numeric_id-once_example :
    (e : Error) × (assign_numeric_id call "t" 5 "Active"
        (assign_numeric_id call "t" 4 "Active" pending).1
      ≡ (err e, (assign_numeric_id call "t" 4 "Active" pending).1))
assign_numeric_id-once_example =
    assign_numeric_id-once call call "t" 4 5 "Active" "Active" pending assigned
