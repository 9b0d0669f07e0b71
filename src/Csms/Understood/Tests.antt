-- ===== src/Csms/Understood/Tests.antt =====
-- Commands of a service whose schemas accept what is no `null`, and whose broker takes each frame.
use ocpp_simulator.Base.{pos, ◌≡◌, refl, [], ◌∷◌, none, some}
use ocpp_simulator.Result.{ok, err, quoted}
use ocpp_simulator.Json.{num, str, json, array, object}
use ocpp_simulator.Codec.{encode, build_call}
use ocpp_simulator.Topic.{out_topic}
use ocpp_simulator.Schemas.{validate}
use ocpp_simulator.Schemas.Tests.{open_library}
use ocpp_simulator.Csms.{Surroundings, Service, reset, remote_start}
use ocpp_simulator.Csms.Understood.{remote_start_command, Understood, send, Sent, send-Understood}

abbrev pub surroundings : Surroundings
surroundings = record { publish = λ topic raw. none; id_text = λ n. "00000001-ab" }

abbrev pub idle : Service
idle = record { unique_id = 0; published = [] }

reset-unknown_type :
    reset open_library surroundings "CP1" "Cold" idle
    ≡ (err (quoted "reset: invalid type" "Cold"), idle)
unfolding reset
reset-unknown_type = refl

remote_start-published :
    (remote_start open_library surroundings "CP1" "TAG" (some (pos 1)) idle).1.published ≡ (
      (
        "ocpp/CP1/out",
        json (
            array (
              num (pos 2)
              ∷ str "00000001-ab"
              ∷ str "RemoteStartTransaction"
              ∷ object (("idTag", str "TAG") ∷ ("connectorId", num (pos 1)) ∷ [])
              ∷ [])),
        none,
      )
      ∷ [])
unfolding remote_start validate encode build_call out_topic
remote_start-published = refl

send_ok :
    (send open_library surroundings (remote_start_command "TAG" (some (pos 1))) "CP1" idle).0
    ≡ ok tt
unfolding send remote_start validate encode build_call
send_ok = refl

send-Understood_example :
    Sent open_library surroundings "CP1" "RemoteStartTransaction"
      (Understood (remote_start_command "TAG" (some (pos 1))))
      idle
      (send open_library surroundings (remote_start_command "TAG" (some (pos 1))) "CP1" idle).1
send-Understood_example =
    send-Understood open_library surroundings (remote_start_command "TAG" (some (pos 1))) "CP1" idle
      refl send_ok
