-- ===== src/Schemas/Tests.antt =====
-- A small library of schemas, on which the theorems about the validator are run.
use ocpp_simulator.Base.{String, ◌==◌, ◌≡◌, refl, [], Option, none, some, if◌then◌else◌}
use ocpp_simulator.Base.Assoc.{Assoc}
use ocpp_simulator.Result.{Error, ok, external}
use ocpp_simulator.Json.{Json, null, json, object}
use ocpp_simulator.Schemas.{SchemaLibrary, schema_action, v16, response, validate, validate_cached}
use ocpp_simulator.Schemas.Cache.{
  v16_declared, empty-IsFaithful, load_schema-IsFaithful, IsFaithful, validate_cached-IsFaithful,
}

abbrev refuse_null : String → Json → Option Error
refuse_null s null = some (external "expected object, but got null")
refuse_null s _ = none

-- Only the response of Heartbeat has a file; its schema refuses `null`.
abbrev pub heartbeat_library : SchemaLibrary
heartbeat_library = record {
  Schema = String;
  read_file = λ path. if path == "v16/HeartbeatResponse.json" then some "object" else none;
  compile = λ path text. ok text;
  check = refuse_null;
}

-- Every message has a schema, which accepts each value.
abbrev pub open_library : SchemaLibrary
open_library = record {
  Schema = String;
  read_file = λ path. some "object";
  compile = λ path text. ok text;
  check = λ schema value. none;
}

heartbeat_valid : validate heartbeat_library v16 "Heartbeat" response (json (object [])) ≡ none
unfolding validate
heartbeat_valid = refl

-- A cache that holds the schema of an earlier call.
abbrev warm : Assoc String
warm = (validate_cached heartbeat_library [] v16 "Heartbeat" response (json (object []))).1

warm-IsFaithful : IsFaithful heartbeat_library warm
unfolding validate_cached
warm-IsFaithful =
    let earlier =
      load_schema-IsFaithful heartbeat_library [] v16 "Heartbeat" response v16_declared
        (empty-IsFaithful heartbeat_library) in
    earlier.1

validate_cached-IsFaithful_example :
    ((validate_cached heartbeat_library warm v16 "Heartbeat" response (json null)).0
      ≡ validate heartbeat_library v16 "Heartbeat" response (json null))
    × IsFaithful heartbeat_library
        (validate_cached heartbeat_library warm v16 "Heartbeat" response (json null)).1
validate_cached-IsFaithful_example =
    validate_cached-IsFaithful heartbeat_library warm v16 "Heartbeat" response (json null)
      v16_declared warm-IsFaithful

schema_action-response : schema_action "HeartbeatResponse.json" ≡ "Heartbeat"
unfolding schema_action
schema_action-response = refl

schema_action-request : schema_action "BootNotification.json" ≡ "BootNotification"
unfolding schema_action
schema_action-request = refl

schema_action-bare : schema_action "Reset" ≡ "Reset"
unfolding schema_action
schema_action-bare = refl
