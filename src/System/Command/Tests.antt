-- ===== src/System/Command/Tests.antt =====
-- A remote start for a charge point in session.
use ocpp_simulator.Base.{◌≡◌, refl, Bool, true, false, [], ◌∷◌, Option, some}
use ocpp_simulator.Result.{ok}
use ocpp_simulator.Json.{str, Bytes, json, object}
use ocpp_simulator.Json.Unmarshal.{unmarshal}
use ocpp_simulator.Codec.{encode, build_call}
use ocpp_simulator.Schemas.{validate}
use ocpp_simulator.Schemas.Tests.{open_library}
use ocpp_simulator.Csms.{remote_start}
use ocpp_simulator.Core.Api.{
  Server, Response, Envelope, envelope_json, read_envelope, empty_envelope,
}
use ocpp_simulator.Core.Api.Commands.{handle_remote_start}
use ocpp_simulator.Core.Api.Commands.Endpoints.{remote_starts}
use ocpp_simulator.Core.Api.Commands.Tests.{backend, unrouted}
use ocpp_simulator.Core.Api.Routes.{serve}
use ocpp_simulator.Gateway.{Gateway}
use ocpp_simulator.Gateway.Outbound.{pump_outbound}
use ocpp_simulator.System.Tests.{server}
use ocpp_simulator.System.Session.Tests.{mqtt, gateway, cp1-InSession}
use ocpp_simulator.System.Command.{IsCommand, command, command-IsCommand}

abbrev body : Bytes
body = json (envelope_json "CP-1" (object (("idTag", str "TAG") ∷ [])))

abbrev envelope : Envelope
envelope = record { charge_point_id = "CP-1"; payload = json (object (("idTag", str "TAG") ∷ [])) }

body-addressed : unmarshal read_envelope body empty_envelope ≡ ok envelope
unfolding read_envelope
body-addressed = refl

abbrev behind : Response × Server × Option Gateway
behind =
    command open_library backend unrouted mqtt (λ p. true) "CP-1" remote_starts body server gateway

accepted : behind.0.status ≡ 202
unfolding command serve handle_remote_start remote_start validate encode build_call
accepted = refl

command-IsCommand_example :
    (raw : Bytes) × (g' : Gateway) × IsCommand open_library backend unrouted mqtt remote_starts raw
    × (behind.2 ≡ some g')
    × ((choice : Bool) → (pump_outbound 0 ((choice, false) ∷ []) g').0 ≡ raw ∷ [])
    × (behind.1.transactions ≡ server.transactions)
    × (behind.1.events ≡ server.events)
command-IsCommand_example =
    command-IsCommand open_library backend unrouted mqtt (λ p. true) 0 remote_starts body server
      gateway envelope body-addressed cp1-InSession
      (record { one_level = λ id ps valid. refl; same_topic = λ topic ps. refl }) accepted
