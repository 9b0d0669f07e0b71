-- ===== src/Processor/Handler.antt =====
-- handler.go: the answer to each inbound frame. Log lines are not modelled; the audit events and
-- the publications are, in their order. `S` is the state of ocpp-core.
pub mod Replies
pub mod Outcomes
pub mod CoreAnswers
pub mod Effects
pub mod Tests
use Prim.Native.String as Text
use ocpp_simulator.Base.{
  ℤ, pos, ◌==ℤ◌, String, ◌==◌, Bool, not, List, [], ◌∷◌, ◌++◌, Option, none, some, if◌then◌else◌,
}
use ocpp_simulator.Result.{Error, Result, ok, err, core_unavailable, ◌>>=◌}
use ocpp_simulator.Json.{Json, num, str, Bytes, json, object}
use ocpp_simulator.Message.{
  Message, call, call_result, call_error, ErrorCode, not_implemented_code, generic_error,
}
use ocpp_simulator.Codec.{encode, decode, build_result, build_error}
use ocpp_simulator.Schemas.{SchemaLibrary, v16, response, validate}
use ocpp_simulator.Topic.{out_topic}
use ocpp_simulator.Processor.Audit.{AuditEvent, empty_event}
use ocpp_simulator.Processor.CoreClient.{CoreClient, core_payload}

-- A Handler with its surroundings: what Broker.Publish answers to a frame, the time of the
-- response in RFC 3339, and the text of an error.
pub record Handler (S : Type 0) : Type 0 where
  pub version : String
  pub core : Option (CoreClient S)
  pub publish : String → Bytes → Option Error
  pub now : String
  pub error_text : Error → String

-- The effects that others see: a frame handed to the broker, with the broker's answer, and an
-- audit event handed to the emitter.
pub data Event : Type 0 where
  sent : String → Bytes → Option Error → Event
  audited : AuditEvent → Event

pub record World (S : Type 0) : Type 0 where
  pub core_state : S
  pub events : List Event

abbrev pub add_event {ℓ} : {A : Type ℓ} → List A → A → List A
add_event es e = es ++ (e ∷ [])

msg_type_name : ℤ → String
msg_type_name id =
    if id ==ℤ call
    then "CALL"
    else if id ==ℤ call_result
    then "CALLRESULT"
    else if id ==ℤ call_error
    then "CALLERROR"
    else "UNKNOWN"

-- The audit events of the inbound side.
pub consumed : String → Message → AuditEvent
unfolding msg_type_name
consumed charge_point_id m = record empty_event {
  kind = "consumed";
  charge_point_id = charge_point_id;
  direction = "inbound";
  message_type = msg_type_name m.message_type_id;
  action = m.action;
  unique_id = m.unique_id;
}

module _ {S : Type 0} where
  pub emit : AuditEvent → World S → World S
  emit ev w = record w { events = add_event w.events (audited ev) }

module _ {S : Type 0} (library : SchemaLibrary) (h : Handler S) where
  -- The end that publishResult and publishError share: Publish, then one audit event.
  pub deliver : String → String → String → String → String → Bytes → World S → World S
  unfolding emit
  deliver charge_point_id unique_id action message_type decision raw w =
      let topic = out_topic charge_point_id in
      let answer = h.publish topic raw in
      let outbound = record empty_event {
        kind = "published";
        charge_point_id = charge_point_id;
        direction = "outbound";
        message_type = message_type;
        action = action;
        unique_id = unique_id;
        topic = topic;
      } in
      let w' : World S = record w { events = add_event w.events (sent topic raw answer) } in
      emit
        (elim answer [
          | some e ↦ record outbound { decision = "publish_failed"; note = h.error_text e }
          | none ↦ record outbound { decision = decision; frame = raw }
        ])
        w'

  deliver_encoded : String → String → String → String → String → Result Bytes → World S → World S
  unfolding deliver
  deliver_encoded charge_point_id unique_id action message_type decision (err e) w = w
  deliver_encoded charge_point_id unique_id action message_type decision (ok raw) w =
      deliver charge_point_id unique_id action message_type decision raw w

  abbrev error_decision : ErrorCode → String
  error_decision not_implemented_code = "not_implemented"
  error_decision _ = "responded"

  pub publish_error : String → String → ErrorCode → String → String → World S → World S
  unfolding deliver_encoded
  publish_error charge_point_id unique_id code description action w =
      deliver_encoded charge_point_id unique_id action "CALLERROR" (error_decision code)
        (encode (build_error unique_id code description none)) w

  unfoldable pub validate_response_schema : String → Bytes → Option Error
  validate_response_schema action payload =
      if not (h.version == "1.6J") then none else validate library v16 action response payload

  publish_valid : String → String → Bytes → String → World S → World S
  unfolding deliver_encoded
  publish_valid charge_point_id unique_id payload action w =
      deliver_encoded charge_point_id unique_id action "CALLRESULT" "responded"
        (do resp ← build_result unique_id payload; encode resp) w

  publish_result : String → String → Bytes → String → World S → World S
  unfolding publish_error publish_valid validate_response_schema
  publish_result charge_point_id unique_id payload action w =
      elim (validate_response_schema action payload) [
        | some e ↦
            publish_error charge_point_id unique_id generic_error
              (Text.◌++◌ "response schema validation failed: " (h.error_text e)) action w
        | none ↦ publish_valid charge_point_id unique_id payload action w
      ]

  -- The responses that need no core.
  handle_boot_notification : Result Bytes
  handle_boot_notification = ok (
      json (
        object (
          ("status", str "Accepted")
          ∷ ("currentTime", str h.now)
          ∷ ("interval", num (pos 300))
          ∷ [])))

  handle_heartbeat : Result Bytes
  handle_heartbeat = ok (json (object (("currentTime", str h.now) ∷ [])))

  handle_status_notification : Result Bytes
  handle_status_notification = ok (json (object []))

  handle_meter_values : Result Bytes
  handle_meter_values = ok (json (object []))

  -- The responses that ocpp-core decides: `operation` picks the call.
  handle_by_core :
      (CoreClient S → String → Bytes → S → Result Bytes × S)
      → Option (CoreClient S)
      → String
      → Bytes
      → S
      → Result Bytes × S
  handle_by_core operation none charge_point_id payload s = (err core_unavailable, s)
  handle_by_core operation (some core) charge_point_id payload s =
      let (body, s') = operation core charge_point_id payload s in (do b ← body; core_payload b, s')

  -- The switch over the action; `none` is its default branch.
  pub respond : String → String → Bytes → S → Option (Result Bytes × S)
  unfolding handle_boot_notification handle_heartbeat handle_status_notification handle_meter_values
      handle_by_core
  respond charge_point_id action payload s =
      if action == "BootNotification"
      then some (handle_boot_notification, s)
      else if action == "Heartbeat"
      then some (handle_heartbeat, s)
      else if action == "StatusNotification"
      then some (handle_status_notification, s)
      else if action == "MeterValues"
      then some (handle_meter_values, s)
      else if action == "Authorize"
      then some (handle_by_core (λ c. c.authorize) h.core charge_point_id payload s)
      else if action == "StartTransaction"
      then some (handle_by_core (λ c. c.start_transaction) h.core charge_point_id payload s)
      else if action == "StopTransaction"
      then some (handle_by_core (λ c. c.stop_transaction) h.core charge_point_id payload s)
      else none

  publish_response : String → Message → Result Bytes → World S → World S
  unfolding publish_error publish_result
  publish_response charge_point_id m (err e) w =
      publish_error charge_point_id m.unique_id generic_error (h.error_text e) m.action w
  publish_response charge_point_id m (ok payload) w =
      publish_result charge_point_id m.unique_id payload m.action w

  unsupported : String → String
  unsupported action =
      Text.◌++◌ "action " (Text.◌++◌ action " is not supported by message-processor")

  finish_call : String → Message → Option (Result Bytes × S) → World S → World S
  unfolding publish_error publish_response unsupported
  finish_call charge_point_id m none w =
      publish_error charge_point_id m.unique_id not_implemented_code (unsupported m.action) m.action
        w
  finish_call charge_point_id m (some (result, s)) w =
      publish_response charge_point_id m result (record w { core_state = s })

  pub respond_to_call : String → Message → World S → World S
  unfolding respond finish_call
  respond_to_call charge_point_id m w =
      finish_call charge_point_id m (respond charge_point_id m.action m.payload w.core_state) w

  -- The switch over the message type, behind the audit of the parsed frame. The last branch is
  -- never reached, since decoding accepts no other type.
  handle_message : String → Message → World S → World S
  unfolding respond_to_call emit consumed
  handle_message charge_point_id m w =
      if m.message_type_id ==ℤ call
      then respond_to_call charge_point_id m w
      else if m.message_type_id ==ℤ call_result
      then emit (record (consumed charge_point_id m) { decision = "noop" }) w
      else if m.message_type_id ==ℤ call_error
      then emit (record (consumed charge_point_id m) { decision = "noop" }) w
      else w

  handle_decoded : String → Bytes → Result Message → World S → World S
  unfolding handle_message emit
  handle_decoded charge_point_id raw (err e) w =
      emit
        (record empty_event {
          kind = "consumed";
          charge_point_id = charge_point_id;
          direction = "inbound";
          decision = "parse_error";
          note = h.error_text e;
          frame = raw;
        })
        w
  handle_decoded charge_point_id raw (ok m) w =
      handle_message charge_point_id m
        (emit (record (consumed charge_point_id m) { frame = raw }) w)

  unfoldable pub handle : String → Bytes → World S → World S
  unfolding handle_decoded
  handle charge_point_id raw w = handle_decoded charge_point_id raw (decode raw) w
