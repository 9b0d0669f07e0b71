-- ===== src/Csms.antt =====
-- apps/ocpp-core/internal/csms/service.go: the commands of the central system. Log lines are not
-- modelled.
pub mod Understood
pub mod History
use Prim.Native.String as Text
use ocpp_simulator.Base.{
  ℕ, ◌+◌, ℤ, is_nonpositive, String, ◌==◌, not, ◌&&◌, List, [], ◌∷◌, ◌++◌, Option, none, some,
  if◌then◌else◌,
}
use ocpp_simulator.Result.{Error, Result, ok, err, msg, quoted, wrap, wrapping}
use ocpp_simulator.Json.{Json, num, str, Bytes, json, object}
use ocpp_simulator.Codec.{encode, build_call}
use ocpp_simulator.Schemas.{SchemaLibrary, v16, request, validate}
use ocpp_simulator.Topic.{out_topic}
use ocpp_simulator.Protocol.V16.{omit_nil}
use ocpp_simulator.Protocol.V16.Requests.{texts, omit_no_items}

-- What the service stands on: what Broker.Publish answers to a frame, and the text
-- that fmt makes of a counter value and of the random bytes drawn for it.
pub record Surroundings : Type 0 where
  pub publish : String → Bytes → Option Error
  pub id_text : ℕ → String

-- Service: the counter, and the frames handed to the broker with its answers.
pub record Service : Type 0 where
  pub unique_id : ℕ
  pub published : List (String × Bytes × Option Error)

module _ (library : SchemaLibrary) (env : Surroundings) where
  -- nextUniqueID. The counter is an int64, which no run comes to the end of.
  next_unique_id : Service → String × Service
  next_unique_id s = let n = 1 + s.unique_id in (env.id_text n, record s { unique_id = n })

  publish_answer : String → Option Error → Result (Unit {0})
  publish_answer topic none = ok tt
  publish_answer topic (some e) = err (wrap (Text.◌++◌ "publish " topic) e)

  publish_frame : String → Result Bytes → Service → Result (Unit {0}) × Service
  unfolding publish_answer
  publish_frame topic (err e) s = (err e, s)
  publish_frame topic (ok raw) s =
      let answer = env.publish topic raw in
      (
        publish_answer topic answer,
        record s { published = s.published ++ ((topic, raw, answer) ∷ []) },
      )

  publish_validated : String → String → Json → String × Service → Result (Unit {0}) × Service
  unfolding publish_frame
  publish_validated charge_point_id action payload (uid, s) =
      publish_frame (out_topic charge_point_id)
        (wrapping (Text.◌++◌ "encode CALL " action) (encode (build_call uid action payload))) s

  publish_checked : Option Error → String → String → Json → Service → Result (Unit {0}) × Service
  unfolding publish_validated next_unique_id
  publish_checked (some e) charge_point_id action payload s =
      (err (wrap (Text.◌++◌ "schema validation failed for " action) e), s)
  publish_checked none charge_point_id action payload s =
      publish_validated charge_point_id action payload (next_unique_id s)

  unfoldable publish : String → String → Json → Service → Result (Unit {0}) × Service
  unfolding publish_checked
  publish charge_point_id action payload s =
      publish_checked (validate library v16 action request (json payload)) charge_point_id action
        payload s

  unfoldable pub remote_start : String → String → Option ℤ → Service → Result (Unit {0}) × Service
  unfolding publish
  remote_start charge_point_id id_tag connector_id s =
      publish charge_point_id "RemoteStartTransaction"
        (object (("idTag", str id_tag) ∷ omit_nil "connectorId" connector_id)) s

  unfoldable pub remote_stop : String → ℤ → Service → Result (Unit {0}) × Service
  unfolding publish
  remote_stop charge_point_id transaction_id s =
      publish charge_point_id "RemoteStopTransaction"
        (object (("transactionId", num transaction_id) ∷ [])) s

  unfoldable pub reset : String → String → Service → Result (Unit {0}) × Service
  unfolding publish
  reset charge_point_id reset_type s =
      if not (reset_type == "Hard") && not (reset_type == "Soft")
      then (err (quoted "reset: invalid type" reset_type), s)
      else publish charge_point_id "Reset" (object (("type", str reset_type) ∷ [])) s

  unfoldable pub unlock_connector : String → ℤ → Service → Result (Unit {0}) × Service
  unfolding publish
  unlock_connector charge_point_id connector_id s =
      if is_nonpositive connector_id
      then (err (msg "unlockConnector: connectorId must be > 0"), s)
      else publish charge_point_id "UnlockConnector"
          (object (("connectorId", num connector_id) ∷ [])) s

  unfoldable pub change_configuration :
      String → String → String → Service → Result (Unit {0}) × Service
  unfolding publish
  change_configuration charge_point_id key value s =
      if key == ""
      then (err (msg "changeConfiguration: key is required"), s)
      else publish charge_point_id "ChangeConfiguration"
          (object (("key", str key) ∷ ("value", str value) ∷ [])) s

  unfoldable pub get_configuration : String → List String → Service → Result (Unit {0}) × Service
  unfolding publish
  get_configuration charge_point_id keys s =
      publish charge_point_id "GetConfiguration" (object (omit_no_items "key" (texts keys))) s

  unfoldable pub trigger_message :
      String → String → Option ℤ → Service → Result (Unit {0}) × Service
  unfolding publish
  trigger_message charge_point_id requested_message connector_id s =
      if requested_message == ""
      then (err (msg "triggerMessage: requestedMessage is required"), s)
      else publish charge_point_id "TriggerMessage"
          (object
            (("requestedMessage", str requested_message) ∷ omit_nil "connectorId" connector_id))
          s

  unfoldable pub change_availability : String → ℤ → String → Service → Result (Unit {0}) × Service
  unfolding publish
  change_availability charge_point_id connector_id availability_type s =
      if not (availability_type == "Operative") && not (availability_type == "Inoperative")
      then (err (quoted "changeAvailability: invalid type" availability_type), s)
      else publish charge_point_id "ChangeAvailability"
          (object (("connectorId", num connector_id) ∷ ("type", str availability_type) ∷ [])) s
