-- ===== src/Processor/Handler/Replies.antt =====
-- Every CALL gets exactly one reply, on the charge point's own topic and under the CALL's id.
use ocpp_simulator.Base.{
  String, ◌≡◌, refl, ap, ◌∙◌, ◌⊎◌, inl, inr, List, [], ◌∷◌, ◌++◌, Option, none, some, ◌==◌, ==ℤ_iff,
  Option-cases, if_keeps, if◌then◌else◌,
}
use mathlib.Core.List.{append-nil}
use ocpp_simulator.Result.{Result, ok, err}
use ocpp_simulator.Result.Laws.{Result-cases}
use ocpp_simulator.Json.{Json, Bytes, json}
use ocpp_simulator.Message.{
  Message, call, call_result, call_error, empty_message, ErrorCode, generic_error,
  not_implemented_code,
}
use ocpp_simulator.Codec.{encode, decode, build_result, build_error}
use ocpp_simulator.Schemas.{SchemaLibrary}
use ocpp_simulator.Topic.{out_topic}
use ocpp_simulator.Processor.Audit.{AuditEvent}
use ocpp_simulator.Processor.CoreClient.{CoreClient}
use ocpp_simulator.Processor.CoreClient.Payload.{IsJsonResult, core_payload-IsJsonResult}
use ocpp_simulator.Processor.Handler.{
  Handler, Event, sent, audited, World, emit, deliver, deliver_encoded, publish_error,
  validate_response_schema, publish_valid, publish_result, handle_boot_notification,
  handle_heartbeat, handle_status_notification, handle_meter_values, handle_by_core, respond,
  publish_response, finish_call, respond_to_call, handle_decoded, handle, consumed,
}

-- The frames handed to the broker, with their topics, in order.
abbrev pub published : List Event → List (String × Bytes)
published [] = []
published (sent topic raw answer ∷ es) = (topic, raw) ∷ published es
published (audited ev ∷ es) = published es

pub published-append : (es fs : List Event) → published (es ++ fs) ≡ published es ++ published fs
published-append [] fs = refl
published-append (sent topic raw answer ∷ es) fs = ap (◌∷◌ (topic, raw)) (published-append es fs)
published-append (audited ev ∷ es) fs = published-append es fs

pub published-emit :
    {S : Type 0} (ev : AuditEvent) (w : World S) → published (emit ev w).events ≡ published w.events
unfolding emit
published-emit ev w = simp (published-append, append-nil)

module _ {S : Type 0} (library : SchemaLibrary) (h : Handler S) where
  -- The reply to the CALL `m`: a CALLRESULT whose payload passed the handler's validation, or a
  -- CALLERROR.
  pub record IsReplyTo (m reply : Message) : Type 0 where
    pub same_id : reply.unique_id ≡ m.unique_id
    pub kind :
        ((reply.message_type_id ≡ call_result)
          × (validate_response_schema library h m.action reply.payload ≡ none))
        ⊎ (reply.message_type_id ≡ call_error)

  -- One frame more was published, on the topic of the charge point, and it decodes to the reply.
  pub record Replied (charge_point_id : String) (m : Message) (w w' : World S) : Type 0 where
    pub frame : Bytes
    pub reply : Message
    pub one_more :
        published w'.events ≡ published w.events ++ (out_topic charge_point_id, frame) ∷ []
    pub decoded : decode frame ≡ ok reply
    pub answers : IsReplyTo m reply

  pub deliver-published :
      (id uid action kind decision : String) (raw : Bytes) (w : World S)
      → published (deliver library h id uid action kind decision raw w).events
        ≡ published w.events ++ (out_topic id, raw) ∷ []
  unfolding deliver emit
  deliver-published id uid action kind decision raw w = simp (published-append, append-nil)

  -- A frame that decodes to a reply is a reply once it is delivered.
  deliver-Replied :
      (id uid action kind decision : String) (raw : Bytes) (m reply : Message) (w : World S)
      → decode raw ≡ ok reply
      → IsReplyTo m reply
      → Replied id m w (deliver library h id uid action kind decision raw w)
  deliver-Replied id uid action kind decision raw m reply w decoded answers = record {
    frame = raw;
    reply = reply;
    one_more = deliver-published id uid action kind decision raw w;
    decoded = decoded;
    answers = answers;
  }

  publish_error-Replied :
      (id : String) (m : Message) (code : ErrorCode) (description action : String) (w : World S)
      → Replied id m w (publish_error library h id m.unique_id code description action w)
  unfolding publish_error deliver_encoded encode decode build_error
  publish_error-Replied id m code description action w =
      deliver-Replied id m.unique_id action "CALLERROR" _ _ m
        (build_error m.unique_id code description none) w refl
        (record { same_id = refl; kind = inr refl })

  publish_valid-Replied :
      (id : String) (m : Message) (p : Json) (w : World S)
      → validate_response_schema library h m.action (json p) ≡ none
      → Replied id m w (publish_valid library h id m.unique_id (json p) m.action w)
  unfolding publish_valid deliver_encoded encode decode build_result
  publish_valid-Replied id m p w valid =
      deliver-Replied id m.unique_id m.action "CALLRESULT" _ _ m
        (record empty_message {
          message_type_id = call_result;
          unique_id = m.unique_id;
          payload = json p;
        })
        w refl (record { same_id = refl; kind = inl (refl, valid) })

  publish_result-Replied :
      (id : String) (m : Message) (p : Json) (w : World S)
      → Replied id m w (publish_result library h id m.unique_id (json p) m.action w)
  unfolding publish_result
  publish_result-Replied id m p w =
      elim (Option-cases (validate_response_schema library h m.action (json p))) [
        | inl valid ↦ rw (valid, publish_result) (publish_valid-Replied id m p w valid)
        | inr (e, refused) ↦
            rw (refused, publish_result) (publish_error-Replied id m generic_error _ m.action w)
      ]

  publish_response-Replied :
      (id : String) (m : Message) (r : Result Bytes) (w : World S)
      → IsJsonResult r
      → Replied id m w (publish_response library h id m r w)
  unfolding publish_response
  publish_response-Replied id m (err e) w _ = publish_error-Replied id m generic_error _ m.action w
  publish_response-Replied id m (ok p) w (j, same) = rw same (publish_result-Replied id m j w)

  handle_by_core-IsJsonResult :
      (operation : CoreClient S → String → Bytes → S → Result Bytes × S)
      (core : Option (CoreClient S)) (id : String) (payload : Bytes) (s : S)
      → IsJsonResult (handle_by_core library h operation core id payload s).0
  unfolding handle_by_core
  handle_by_core-IsJsonResult operation none id payload s = tt
  handle_by_core-IsJsonResult operation (some core) id payload s =
      elim (Result-cases (operation core id payload s).0) [
        | inl (e, failed) ↦ rw failed tt
        | inr (b, body) ↦ rw body (core_payload-IsJsonResult b)
      ]

  abbrev IsJsonResponse : Option (Result Bytes × S) → Type 0
  IsJsonResponse none = Unit
  IsJsonResponse (some (r, s)) = IsJsonResult r

  respond-IsJsonResponse :
      (id action : String) (payload : Bytes) (s : S)
      → IsJsonResponse (respond library h id action payload s)
  unfolding respond handle_boot_notification handle_heartbeat handle_status_notification
      handle_meter_values
  respond-IsJsonResponse id action payload s =
      pick "BootNotification" _ _ (_, refl)
        (pick "Heartbeat" _ _ (_, refl)
          (pick "StatusNotification" _ _ (_, refl)
            (pick "MeterValues" _ _ (_, refl)
              (pick "Authorize" _ _ (by_core (λ c. c.authorize)) (
                pick "StartTransaction" _ _ (by_core (λ c. c.start_transaction))
                  (pick "StopTransaction" _ _ (by_core (λ c. c.stop_transaction)) tt))))))
    where
      pick :
          (name : String) (x y : Option (Result Bytes × S))
          → IsJsonResponse x
          → IsJsonResponse y
          → IsJsonResponse (if action == name then x else y)
      pick name x y h k = if_keeps IsJsonResponse (action == name) h k

      by_core :
          (operation : CoreClient S → String → Bytes → S → Result Bytes × S)
          → IsJsonResult (handle_by_core library h operation h.core id payload s).0
      by_core operation = handle_by_core-IsJsonResult operation h.core id payload s

  -- Steps before the reply that publish nothing do not count.
  Replied-after :
      (id : String) (m : Message) (v w w' : World S)
      → published v.events ≡ published w.events
      → Replied id m v w'
      → Replied id m w w'
  Replied-after id m v w w' e q = record {
    frame = q.frame;
    reply = q.reply;
    one_more = q.one_more ∙ ap (λ es. es ++ (out_topic id, q.frame) ∷ []) e;
    decoded = q.decoded;
    answers = q.answers;
  }

  finish_call-Replied :
      (id : String) (m : Message) (r : Option (Result Bytes × S)) (w : World S)
      → IsJsonResponse r
      → Replied id m w (finish_call library h id m r w)
  unfolding finish_call
  finish_call-Replied id m none w _ = publish_error-Replied id m not_implemented_code _ m.action w
  finish_call-Replied id m (some (r, s)) w json_result =
      Replied-after id m (record w { core_state = s }) w _ refl
        (publish_response-Replied id m r _ json_result)

  respond_to_call-Replied :
      (id : String) (m : Message) (w : World S) → Replied id m w (respond_to_call library h id m w)
  unfolding respond_to_call
  respond_to_call-Replied id m w =
      finish_call-Replied id m _ w (respond-IsJsonResponse id m.action m.payload w.core_state)

  pub handle-call :
      (id : String) (raw : Bytes) (m : Message) (w : World S)
      → decode raw ≡ ok m
      → m.message_type_id ≡ call
      → handle library h id raw w
        ≡ respond_to_call library h id m (emit (record (consumed id m) { frame = raw }) w)
  unfolding handle
  handle-call id raw m w decoded is_call =
      rw (decoded, handle_decoded, (==ℤ_iff _ _).1 is_call) refl

  -- For every frame that decodes to a CALL, the handler hands exactly one frame more to the broker,
  -- on the out topic of the charge point; it decodes to a message with the id of the CALL, which is
  -- a CALLRESULT whose payload passed the handler's schema validation for the action, or a
  -- CALLERROR.
  pub handle-Replied :
      (id : String) (raw : Bytes) (m : Message) (w : World S)
      → decode raw ≡ ok m
      → m.message_type_id ≡ call
      → Replied id m w (handle library h id raw w)
  handle-Replied id raw m w decoded is_call =
      rw (handle-call id raw m w decoded is_call)
        (Replied-after id m _ w _ (published-emit _ w) (respond_to_call-Replied id m _))
