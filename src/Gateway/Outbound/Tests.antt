-- ===== src/Gateway/Outbound/Tests.antt =====
-- Three messages for a charge point whose connection is open.
use ocpp_simulator.Base.{◌≡◌, Bool, true, false, List, [], ◌∷◌, some, map, refl, arith}
use ocpp_simulator.Base.Assoc.{lookup}
use ocpp_simulator.Json.{Bytes, junk}
use ocpp_simulator.Gateway.{Gateway}
use ocpp_simulator.Gateway.Outbound.{
  deliver_all, pump_outbound, turns_of, deliver_all-pump_outbound,
}

abbrev open_session : Gateway
open_session = record {
  handlers = ("ocpp/CP1/out", "CP1") ∷ [];
  calls = [];
  next = 1;
  heap = λ r. record {
    charge_point_id = "CP1";
    unsubscribe = "ocpp/CP1/out";
    unsubscribe_done = false;
    outbound = [];
    closed = false;
  };
  conns = ("CP1", 0) ∷ [];
}

abbrev messages : List (Bool × Bytes)
messages = (false, junk "a") ∷ (true, junk "b") ∷ (false, junk "c") ∷ []

abbrev choices : List Bool
choices = true ∷ true ∷ false ∷ []

registered : lookup "CP1" open_session.conns ≡ some 0
unfolding lookup
registered = refl

deliver_all-pump_outbound_example :
    (g' : Gateway) × (deliver_all "CP1" messages open_session ≡ some g')
    × ((pump_outbound 0 (turns_of choices) g').0 ≡ map {B = Bytes} (λ x. x.1) messages)
deliver_all-pump_outbound_example =
    deliver_all-pump_outbound "CP1" 0 messages choices open_session registered refl refl
      (omega arith) refl
