-- ===== src/Core/Api/Commands/Tests.antt =====
-- A remote start that the server queues.
use ocpp_simulator.Base.{◌≡◌, refl, String, [], ◌∷◌, none}
use ocpp_simulator.Json.{str, Bytes, json, object}
use ocpp_simulator.Schemas.{validate}
use ocpp_simulator.Schemas.Tests.{open_library}
use ocpp_simulator.Codec.{encode, build_call}
use ocpp_simulator.Csms.{remote_start}
use ocpp_simulator.Csms.Understood.Tests.{surroundings, idle}
use ocpp_simulator.Core.Store.{Call}
use ocpp_simulator.Core.Api.{
  Server, Backend, answers, Response, write_error, envelope_json, read_envelope, empty_envelope,
}
use ocpp_simulator.Json.Unmarshal.{unmarshal}
use ocpp_simulator.Core.Api.Commands.{handle_remote_start}
use ocpp_simulator.Core.Api.Routes.{serve}
use ocpp_simulator.Core.Api.Commands.Accepted.{Addressed, IsQueued}
use ocpp_simulator.Core.Api.Commands.Endpoints.{remote_starts, serve-IsQueued}

abbrev working : Call
working = record { now = "2026-01-01T00:00:00Z"; uuid = "u"; failure = none }

abbrev pub backend : Backend
backend = record {
  event_insert = working;
  transaction_insert = working;
  transaction_list = working;
  transaction_update = working;
  newest_first = λ rows. rows;
  error_text = λ e. "error";
  network = answers;
  command = surroundings;
}

abbrev pub unrouted : String → Response
unrouted request = write_error 404 "page not found"

abbrev server : Server
server = record { transactions = record { next_id = 1; rows = [] }; commands = idle; events = [] }

abbrev body : Bytes
body = json (envelope_json "CP1" (object (("idTag", str "TAG") ∷ [])))

accepted :
    (serve open_library backend unrouted "POST /internal/csms/remote-start" body server).0.status
    ≡ 202
unfolding serve handle_remote_start remote_start validate encode build_call
accepted = refl

serve-IsQueued_example : Addressed (unmarshal read_envelope body empty_envelope) (
    IsQueued open_library backend "RemoteStartTransaction" server
      (serve open_library backend unrouted "POST /internal/csms/remote-start" body server).1)
serve-IsQueued_example =
    serve-IsQueued open_library backend unrouted remote_starts body server accepted
