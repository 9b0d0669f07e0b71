-- ===== src/Processor/Handler/CoreAnswers.antt =====
-- The three actions that ocpp-core decides: its answer becomes the reply.
use ocpp_simulator.Base.{String, ◌≡◌, refl, ap, ◌∙◌, [], ◌∷◌, ◌++◌, none, some}
use ocpp_simulator.Result.{Error, Result, ok, err, ◌>>=◌}
use ocpp_simulator.Json.{Json, num, str, Bytes, json, array}
use ocpp_simulator.Message.{Message, empty_message, call, call_result, generic_error}
use ocpp_simulator.Codec.{encode, decode, build_result}
use ocpp_simulator.Schemas.{SchemaLibrary}
use ocpp_simulator.Topic.{out_topic}
use ocpp_simulator.Processor.CoreClient.{CoreClient, core_payload}
use ocpp_simulator.Processor.Handler.{
  Handler, World, emit, deliver, deliver_encoded, validate_response_schema, publish_valid,
  publish_result, handle_by_core, respond, publish_response, finish_call, respond_to_call, handle,
}
use ocpp_simulator.Processor.Handler.Replies.{
  published, published-emit, deliver-published, handle-call,
}
use ocpp_simulator.Processor.Handler.Outcomes.{Rejected, publish_error-Rejected}

-- The actions, with their names and methods.
pub data CoreAction : Type 0 where
  authorizes starts stops : CoreAction

abbrev pub core_action : CoreAction → String
core_action authorizes = "Authorize"
core_action starts = "StartTransaction"
core_action stops = "StopTransaction"

module _ {S : Type 0} where
  abbrev pub method : CoreAction → CoreClient S → String → Bytes → S → Result Bytes × S
  method authorizes core = core.authorize
  method starts core = core.start_transaction
  method stops core = core.stop_transaction

module _ {S : Type 0} (library : SchemaLibrary) (h : Handler S) (core : CoreClient S)
    (wired : h.core ≡ some core) where
  -- One frame more, on the charge point's out topic: a CALLRESULT with the id of the CALL and the
  -- payload. ocpp-core is in the given state.
  pub record Answered (id : String) (m : Message) (payload : Json) (s : S) (w w' : World S)
      : Type 0 where
    pub frame : Bytes
    pub one_more : published w'.events ≡ published w.events ++ (out_topic id, frame) ∷ []
    pub decoded :
        decode frame
        ≡ ok (record empty_message {
          message_type_id = call_result;
          unique_id = m.unique_id;
          payload = json payload;
        })
    pub left_in : w'.core_state ≡ s

  pub respond-core :
      (a : CoreAction) (id : String) (payload : Bytes) (s : S)
      → respond library h id (core_action a) payload s
        ≡ some (
          (do b ← (method a core id payload s).0; core_payload b),
          (method a core id payload s).1,
        )
  unfolding respond handle_by_core
  respond-core authorizes id payload s = rw (wired, handle_by_core) refl
  respond-core starts id payload s = rw (wired, handle_by_core) refl
  respond-core stops id payload s = rw (wired, handle_by_core) refl

  abbrev result_frame : Message → Json → Bytes
  result_frame m p = json (array (num call_result ∷ str m.unique_id ∷ p ∷ []))

  publish_valid-Answered :
      (id : String) (m : Message) (p : Json) (s : S) (v w : World S)
      → published v.events ≡ published w.events
      → v.core_state ≡ s
      → Answered id m p s w (publish_valid library h id m.unique_id (json p) m.action v)
  unfolding publish_valid deliver_encoded encode build_result decode deliver emit
  publish_valid-Answered id m p s v w same_events left = record {
    frame = result_frame m p;
    one_more =
        deliver-published library h id m.unique_id m.action "CALLRESULT" "responded"
          (result_frame m p) v
        ∙ ap (λ es. es ++ (out_topic id, result_frame m p) ∷ []) same_events;
    decoded = refl;
    left_in = left;
  }

  module _ (a : CoreAction) (id : String) (raw : Bytes) (m : Message) (w : World S)
      (decoded : decode raw ≡ ok m) (is_call : m.message_type_id ≡ call)
      (asked : m.action ≡ core_action a) where
    responds :
        (result : Result Bytes) (s : S)
        → (do b ← (method a core id m.payload w.core_state).0; core_payload b) ≡ result
        → (method a core id m.payload w.core_state).1 ≡ s
        → respond library h id m.action m.payload w.core_state ≡ some (result, s)
    responds result s answers left =
        rw (asked, respond-core a id m.payload w.core_state, answers, left) refl

    -- An answer of ocpp-core whose payload passes the handler's validation is the reply.
    pub handle-Answered :
        (body : Bytes) (p : Json) (s : S)
        → method a core id m.payload w.core_state ≡ (ok body, s)
        → core_payload body ≡ ok (json p)
        → validate_response_schema library h m.action (json p) ≡ none
        → Answered id m p s w (handle library h id raw w)
    unfolding respond_to_call finish_call publish_response publish_result
    handle-Answered body p s answers has_payload valid =
        rw (handle-call library h id raw m w decoded is_call) (
          rw
            (
              responds (ok (json p)) s (rw answers has_payload) (rw answers refl),
              finish_call,
              publish_result,
              valid,
            )
            (publish_valid-Answered id m p s _ w (published-emit _ w) refl))

    -- An error of ocpp-core is answered by the CALLERROR GenericError, over the state that the
    -- client leaves.
    pub handle-core_failed :
        (e : Error) (s : S)
        → method a core id m.payload w.core_state ≡ (err e, s)
        → Rejected library h generic_error id m
            (record w { core_state = s })
            (handle library h id raw w)
    unfolding respond_to_call finish_call publish_response
    handle-core_failed e s answers = rw (handle-call library h id raw m w decoded is_call) (
        rw (responds (err e) s (rw answers refl) (rw answers refl), finish_call)
          (publish_error-Rejected library h id m generic_error _ _ (record w { core_state = s })
            (published-emit _ w) refl))
