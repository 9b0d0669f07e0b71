-- ===== src/Processor/Handler/Tests.antt =====
-- A handler at concrete frames: a core that accepts, no core, unknown actions and broken frames.
use ocpp_simulator.Base.{ℕ, String, ◌≡◌, ◌≢◌, refl, pos, suc, [], ◌∷◌, Option, none, some, All}
use ocpp_simulator.Result.{Result, ok}
use ocpp_simulator.Json.{num, str, Bytes, json, junk, array, object}
use ocpp_simulator.Json.Unmarshal.{read_struct}
use ocpp_simulator.Message.{Message, empty_message, call, not_implemented_code}
use ocpp_simulator.Codec.{encode, decode, build_result}
use ocpp_simulator.Schemas.Tests.{heartbeat_library}
use ocpp_simulator.Schemas.{validate}
use ocpp_simulator.Topic.{out_topic}
use ocpp_simulator.Processor.CoreClient.{CoreClient}
use ocpp_simulator.Processor.Handler.{Handler, World, validate_response_schema, handle}
use ocpp_simulator.Processor.Handler.Replies.{published, Replied, handle-Replied}
use ocpp_simulator.Processor.Handler.Outcomes.{
  Rejected, IsSilent, supported_actions, handle-unsupported, handle-IsSilent,
}

-- A core that counts its calls and accepts each.
abbrev accept : String → Bytes → ℕ → Result Bytes × ℕ
accept id payload n =
    (ok (json (object (("payload", object (("status", str "Accepted") ∷ [])) ∷ []))), suc n)

abbrev pub counting_core : CoreClient ℕ
counting_core = record { authorize = accept; start_transaction = accept; stop_transaction = accept }

abbrev pub handler : Option (CoreClient ℕ) → Handler ℕ
handler core = record {
  version = "1.6J";
  core = core;
  publish = λ topic raw. none;
  now = "2026-01-01T00:00:00Z";
  error_text = λ e. "error";
}

abbrev pub fresh : World ℕ
fresh = record { core_state = 0; events = [] }

abbrev pub call_frame : String → Bytes
call_frame action = json (array (num (pos 2) ∷ str "7" ∷ str action ∷ object [] ∷ []))

abbrev pub call_message : String → Message
call_message action = record empty_message {
  message_type_id = call;
  unique_id = "7";
  action = action;
  payload = json (object []);
}

-- The schema library knows Heartbeat only, so a payload of another action is refused.
published_heartbeat :
    published (handle heartbeat_library (handler none) "CP-1" (call_frame "Heartbeat") fresh).events
    ≡ (
      "ocpp/CP-1/out",
      json (
          array (
            num (pos 3)
            ∷ str "7"
            ∷ object (("currentTime", str "2026-01-01T00:00:00Z") ∷ [])
            ∷ [])),
    )
      ∷ []
unfolding handle out_topic validate validate_response_schema encode decode build_result read_struct
published_heartbeat = refl

handle-Replied_example :
    Replied heartbeat_library
      (handler none)
      "CP-1"
      (call_message "Heartbeat")
      fresh
      (handle heartbeat_library (handler none) "CP-1" (call_frame "Heartbeat") fresh)
unfolding decode
handle-Replied_example =
    handle-Replied heartbeat_library (handler none) "CP-1" (call_frame "Heartbeat")
      (call_message "Heartbeat") fresh refl refl

handle-unsupported_example :
    Rejected heartbeat_library
      (handler none)
      not_implemented_code
      "CP-1"
      (call_message "DataTransfer")
      fresh
      (handle heartbeat_library (handler none) "CP-1" (call_frame "DataTransfer") fresh)
unfolding decode
handle-unsupported_example =
    handle-unsupported heartbeat_library (handler none) "CP-1" (call_frame "DataTransfer")
      (call_message "DataTransfer") fresh refl refl unknown
  where
    unknown : All (λ a. "DataTransfer" ≢ a) supported_actions
    unknown = (λ e. cc, (λ e. cc, (λ e. cc, (λ e. cc, (λ e. cc, (λ e. cc, (λ e. cc, tt)))))))

handle-IsSilent_example :
    IsSilent heartbeat_library
      (handler (some counting_core))
      fresh
      (handle heartbeat_library (handler (some counting_core)) "CP-1" (junk "{[") fresh)
unfolding decode
handle-IsSilent_example =
    handle-IsSilent heartbeat_library (handler (some counting_core)) "CP-1" (junk "{[") fresh
      (λ m e _. cc)
