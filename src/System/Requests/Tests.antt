-- ===== src/System/Requests/Tests.antt =====
-- A stop without a tag, with its reason.
use ocpp_simulator.Base.{pos, refl}
use ocpp_simulator.Protocol.{Surroundings}
use ocpp_simulator.System.Requests.{Asking, asks_stop, IsAsked, build-IsAsked}

abbrev surroundings : Surroundings
surroundings = record { fresh_id = "7"; now = "2026-01-01T00:00:00Z" }

abbrev stop : Asking
stop =
    asks_stop
      (record {
        transaction_id = pos 3;
        id_tag = "";
        meter_stop = pos 120;
        timestamp = "2026-01-01T00:00:00Z";
        reason = "Local";
      })
      refl refl

build-IsAsked_example : IsAsked surroundings stop
build-IsAsked_example = build-IsAsked surroundings stop
