-- ===== src/System/Tests.antt =====
-- A charge point whose CALLs of StartTransaction, StopTransaction and Authorize reach ocpp-core.
use ocpp_simulator.Base.{pos, ◌≡◌, refl, String, ◌⊎◌, [], ◌∷◌, none, some, length}
use ocpp_simulator.Result.{ok, external}
use ocpp_simulator.Json.{Json, num, str, Bytes, json, array, object}
use ocpp_simulator.Message.{Message, empty_message, call, generic_error}
use ocpp_simulator.Codec.{encode, decode, build_error}
use ocpp_simulator.Schemas.{validate}
use ocpp_simulator.Schemas.Tests.{open_library}
use ocpp_simulator.Processor.Handler.{Handler, World, validate_response_schema, handle}
use ocpp_simulator.Processor.CoreClient.{http_core_client, core_payload}
use ocpp_simulator.Processor.Handler.Replies.{published}
use ocpp_simulator.Core.Api.Routes.{post_to_core}
use ocpp_simulator.Processor.Handler.Outcomes.{Rejected}
use ocpp_simulator.Csms.Understood.Tests.{idle}
use ocpp_simulator.Core.Store.{Transaction}
use ocpp_simulator.Core.Transactions.{transaction_of, start}
use ocpp_simulator.Core.Api.{Server, Backend, loses, handle_start_transaction}
use ocpp_simulator.Core.Api.Decisions.{start_input}
use ocpp_simulator.Core.Api.Commands.Tests.{backend, unrouted}
use ocpp_simulator.System.Client.{core_client}
use ocpp_simulator.System.Stop.{Authorized, AuthorizeUnheard, handle-authorize}

abbrev pub handler : Handler Server
handler = record {
  version = "1.6J";
  core = some (core_client open_library backend unrouted "http://core");
  publish = λ topic raw. none;
  now = "2026-01-01T00:00:00Z";
  error_text = λ e. "error";
}

abbrev pub row : Transaction
row =
    record (transaction_of
      (start_input "CP1"
        (record { connector_id = pos 1; id_tag = "TAG"; meter_start = pos 0; timestamp = "" }))
      4) { id = "t" }

abbrev pub server : Server
server = record {
  transactions = record { next_id = 5; rows = row ∷ [] };
  commands = idle;
  events = [];
}

abbrev pub world : World Server
world = record { core_state = server; events = [] }

abbrev pub request : String → Json → Bytes
request action payload = json (array (num (pos 2) ∷ str "7" ∷ str action ∷ payload ∷ []))

abbrev message : String → Json → Message
message action payload = record empty_message {
  message_type_id = call;
  unique_id = "7";
  action = action;
  payload = json payload;
}

decode-request :
    (action : String) (payload : Json)
    → decode (request action payload) ≡ ok (message action payload)
unfolding decode
decode-request action payload = refl

abbrev pub tag : Json
tag = object (("idTag", str "TAG") ∷ [])

abbrev pub last : Json
last = object (("transactionId", num (pos 4)) ∷ [])

accepted_valid :
    (action : String) (p : Json)
    → validate_response_schema open_library handler action (json p) ≡ none
unfolding validate_response_schema validate
accepted_valid action p = refl

handle-authorize_example :
    Authorized open_library backend unrouted "http://core" handler refl "CP1"
      (message "Authorize" tag)
      world
      (handle open_library handler "CP1" (request "Authorize" tag) world)
    ⊎ Rejected open_library handler generic_error "CP1"
        (message "Authorize" tag)
        world
        (handle open_library handler "CP1" (request "Authorize" tag) world)
    ⊎ AuthorizeUnheard open_library backend unrouted "http://core" handler refl "CP1"
        (message "Authorize" tag)
        world
        (handle open_library handler "CP1" (request "Authorize" tag) world)
handle-authorize_example =
    handle-authorize open_library backend unrouted "http://core" handler refl "CP1"
      (request "Authorize" tag) (message "Authorize" tag) world (decode-request "Authorize" tag)
      refl refl (accepted_valid "Authorize" _)

-- A start whose answer is lost: ocpp-core has stored it, and there is one reply.
abbrev losing : Backend
losing = record backend { network = loses (external "timeout") }

abbrev behind_loss : World Server
behind_loss =
    handle open_library
      (record handler { core = some (core_client open_library losing unrouted "http://core") })
      "CP1" (request "StartTransaction" tag) world

start-lost :
    (behind_loss.core_state.transactions.next_id ≡ 6) × (length (published behind_loss.events) ≡ 1)
unfolding handle core_client handle_start_transaction start decode encode build_error
    http_core_client core_payload post_to_core validate
start-lost = (refl, refl)
