-- ===== src/System/History/Tests.antt =====
-- Two charge points: a start whose INSERT fails, two starts, a stop and a broken frame.
use ocpp_simulator.Base.{◌≡◌, ◌≢◌, refl, List, [], ◌∷◌, some, none, String, length, AllPairs, arith}
use ocpp_simulator.Json.{junk}
use ocpp_simulator.Result.{external}
use ocpp_simulator.Core.Transactions.{Service, transaction_of, start, stop_transaction}
use ocpp_simulator.Core.Transactions.Counter.{Inv}
use ocpp_simulator.Core.Transactions.Restarts.{Operation, granted}
use ocpp_simulator.Core.Api.{Server, Backend, handle_start_transaction, handle_stop_transaction}
use ocpp_simulator.Core.Api.Commands.Tests.{backend, unrouted}
use ocpp_simulator.Schemas.Tests.{open_library}
use ocpp_simulator.Processor.Handler.{Handler, handle}
use ocpp_simulator.Codec.{decode, encode, build_error, build_result}
use ocpp_simulator.Schemas.{validate}
use ocpp_simulator.Processor.CoreClient.{http_core_client, core_payload}
use ocpp_simulator.Core.Api.Routes.{post_to_core}
use ocpp_simulator.System.Client.{core_client}
use ocpp_simulator.System.Tests.{handler, world, request, tag, last}
use ocpp_simulator.System.History.{Delivery, Requested, apply_all, deliver_all, deliver_all-history}

abbrev pub handler_at : Backend → Handler Server
handler_at env = record handler {
  core = some (core_client open_library env unrouted "http://core");
}

abbrev drawing : String → Backend
drawing uuid = record backend {
  transaction_insert = record { now = "now"; uuid = uuid; failure = none };
}

abbrev failing : Backend
failing = record backend {
  transaction_insert = record { now = "now"; uuid = "u"; failure = some (external "insert") };
}

abbrev pub deliveries : List Delivery
deliveries =
    record { backend = failing; topic = "ocpp/CP1/in"; payload = request "StartTransaction" tag }
    ∷ record {
      backend = drawing "a";
      topic = "ocpp/CP2/in";
      payload = request "StartTransaction" tag;
    }
    ∷ record { backend = drawing "b"; topic = "ocpp/CP1/in"; payload = junk "[2," }
    ∷ record {
      backend = drawing "c";
      topic = "ocpp/CP1/in";
      payload = request "StartTransaction" tag;
    }
    ∷ record {
      backend = drawing "d";
      topic = "ocpp/CP1/in";
      payload = request "StopTransaction" last;
    }
    ∷ []

world-Inv : Inv world.core_state.transactions
unfolding transaction_of
world-Inv = record { below = omega arith; distinct = omega arith; bounded = omega arith }

abbrev behind : Service
behind =
    let w =
      deliver_all open_library unrouted "http://core" handler_at (λ env. refl) deliveries world in
    w.core_state.transactions

behind-ids : (behind.next_id ≡ 7) × (length behind.rows ≡ 3)
unfolding deliver_all handle core_client handle_start_transaction handle_stop_transaction start
    stop_transaction decode encode build_error build_result http_core_client core_payload
    post_to_core validate
behind-ids = (refl, refl)

deliver_all-history_example :
    (ops : List Operation) × Requested deliveries ops
    × (behind ≡ apply_all ops world.core_state.transactions)
    × Inv behind
    × AllPairs (λ n m. n ≢ m) (granted ops world.core_state.transactions)
deliver_all-history_example =
    deliver_all-history open_library unrouted "http://core" handler_at (λ env. refl) deliveries
      world world-Inv
