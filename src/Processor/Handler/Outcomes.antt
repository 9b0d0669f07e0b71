-- ===== src/Processor/Handler/Outcomes.antt =====
-- The branches of the handler that no core answers, and what they leave alone.
use ocpp_simulator.Base.{
  String, eq_iff, ◌≡◌, ◌≢◌, refl, ap, ◌∙◌, inl, inr, List, [], ◌∷◌, ◌++◌, none, some, arith, All,
  ==ℤ_iff, ◌==ℤ◌, Bool-cases, if_keeps,
}
use mathlib.Core.List.{Memᴰ}
use ocpp_simulator.Result.{ok, err, core_unavailable}
use ocpp_simulator.Result.Laws.{Result-cases}
use ocpp_simulator.Json.{Bytes, json, num, str, array, object}
use ocpp_simulator.Message.{
  Message, call, call_result, call_error, ErrorCode, code_text, generic_error, not_implemented_code,
}
use ocpp_simulator.Codec.{encode, decode, build_error}
use ocpp_simulator.Schemas.{SchemaLibrary}
use ocpp_simulator.Topic.{out_topic}
use ocpp_simulator.Processor.Audit.{AuditEvent}
use ocpp_simulator.Processor.Handler.{
  Handler, World, emit, deliver, deliver_encoded, publish_error, respond, publish_response,
  finish_call, respond_to_call, handle_message, handle_decoded, handle,
}
use ocpp_simulator.Processor.Handler.Replies.{
  published, published-emit, deliver-published, handle-call,
}

-- The actions that the processor answers.
abbrev pub core_actions : List String
core_actions = "Authorize" ∷ "StartTransaction" ∷ "StopTransaction" ∷ []

abbrev pub supported_actions : List String
supported_actions =
    "BootNotification" ∷ "Heartbeat" ∷ "StatusNotification" ∷ "MeterValues" ∷ core_actions

module _ {S : Type 0} (library : SchemaLibrary) (h : Handler S) where
  -- One frame more, on the topic of the charge point: a CALLERROR with the code and the id of the
  -- CALL. The state of ocpp-core is as it was.
  pub record Rejected (code : ErrorCode) (id : String) (m : Message) (w w' : World S) : Type 0 where
    pub frame : Bytes
    pub reply : Message
    pub one_more : published w'.events ≡ published w.events ++ (out_topic id, frame) ∷ []
    pub decoded : decode frame ≡ ok reply
    pub is_error : reply.message_type_id ≡ call_error
    pub same_id : reply.unique_id ≡ m.unique_id
    pub with_code : reply.error_code ≡ code_text code
    pub core_kept : w'.core_state ≡ w.core_state

  pub publish_error-Rejected :
      (id : String) (m : Message) (code : ErrorCode) (description : String) (v w : World S)
      → published v.events ≡ published w.events
      → v.core_state ≡ w.core_state
      → Rejected code id m w (publish_error library h id m.unique_id code description m.action v)
  unfolding publish_error deliver_encoded encode decode build_error deliver emit
  publish_error-Rejected id m code description v w same_events same_core = record {
    frame = frame;
    reply = build_error m.unique_id code description none;
    one_more =
        deliver-published library h id m.unique_id m.action "CALLERROR" _ frame v
        ∙ ap (λ es. es ++ (out_topic id, frame) ∷ []) same_events;
    decoded = refl;
    is_error = refl;
    same_id = refl;
    with_code = refl;
    core_kept = same_core;
  }
    where
      frame : Bytes
      frame = json (
          array (
            num call_error
            ∷ str m.unique_id
            ∷ str (code_text code)
            ∷ str description
            ∷ object []
            ∷ []))

  respond_unsupported :
      (id action : String) (payload : Bytes) (s : S)
      → All (λ a. action ≢ a) supported_actions
      → respond library h id action payload s ≡ none
  unfolding respond
  respond_unsupported id action payload s unknown = ground (
    arith,
    eq_iff action "BootNotification",
    eq_iff action "Heartbeat",
    eq_iff action "StatusNotification",
    eq_iff action "MeterValues",
    eq_iff action "Authorize",
    eq_iff action "StartTransaction",
    eq_iff action "StopTransaction",
  )

  -- A CALL whose action the processor does not support is answered by the CALLERROR
  -- NotImplemented, and the state of ocpp-core stays as it was.
  pub handle-unsupported :
      (id : String) (raw : Bytes) (m : Message) (w : World S)
      → decode raw ≡ ok m
      → m.message_type_id ≡ call
      → All (λ a. m.action ≢ a) supported_actions
      → Rejected not_implemented_code id m w (handle library h id raw w)
  unfolding respond_to_call finish_call
  handle-unsupported id raw m w decoded is_call unknown =
      rw (handle-call library h id raw m w decoded is_call) (
        rw (no_response, finish_call)
          (publish_error-Rejected id m not_implemented_code _ _ w (published-emit _ w) refl))
    where
      no_response : respond library h id m.action m.payload w.core_state ≡ none
      no_response = respond_unsupported id m.action m.payload w.core_state unknown

  respond_no_core :
      (id action : String) (payload : Bytes) (s : S)
      → Memᴰ action core_actions
      → h.core ≡ none
      → respond library h id action payload s ≡ some (err core_unavailable, s)
  unfolding respond
  respond_no_core id action payload s (Memᴰ.head e) no_client = rw (e, no_client) refl
  respond_no_core id action payload s (Memᴰ.tail (Memᴰ.head e)) no_client = rw (e, no_client) refl
  respond_no_core id action payload s (Memᴰ.tail (Memᴰ.tail (Memᴰ.head e))) no_client =
      rw (e, no_client) refl
  respond_no_core id action payload s (Memᴰ.tail (Memᴰ.tail (Memᴰ.tail m))) no_client = elim m [ ]

  -- Without a core client a CALL of Authorize, StartTransaction or StopTransaction is answered by
  -- the CALLERROR GenericError.
  pub handle-no_core :
      (id : String) (raw : Bytes) (m : Message) (w : World S)
      → decode raw ≡ ok m
      → m.message_type_id ≡ call
      → Memᴰ m.action core_actions
      → h.core ≡ none
      → Rejected generic_error id m w (handle library h id raw w)
  unfolding respond_to_call finish_call publish_response
  handle-no_core id raw m w decoded is_call asked no_client =
      rw (handle-call library h id raw m w decoded is_call) (
        rw (respond_no_core id m.action m.payload w.core_state asked no_client, finish_call)
          (publish_error-Rejected id m generic_error _ _ w (published-emit _ w) refl))

  -- Nothing more was published, and the state of ocpp-core is as it was.
  abbrev pub IsSilent : World S → World S → Type 0
  IsSilent w w' = (published w'.events ≡ published w.events) × (w'.core_state ≡ w.core_state)

  emit-IsSilent : (ev : AuditEvent) (w : World S) → IsSilent w (emit ev w)
  unfolding emit
  emit-IsSilent ev w = (published-emit ev w, refl)

  handle_message-IsSilent :
      (id : String) (m : Message) (w : World S)
      → m.message_type_id ≢ call
      → IsSilent w (handle_message library h id m w)
  unfolding handle_message
  handle_message-IsSilent id m w other = elim (Bool-cases (m.message_type_id ==ℤ call)) [
    | inl is ↦ absurd (other ((==ℤ_iff _ _).0 is))
    | inr not_call ↦
        rw (not_call, handle_message)
          (if_keeps (IsSilent w) (m.message_type_id ==ℤ call_result) (emit-IsSilent _ w) (
            if_keeps (IsSilent w) (m.message_type_id ==ℤ call_error) (emit-IsSilent _ w)
              (refl, refl)))
  ]

  -- A frame that does not decode, or that is no CALL, publishes nothing and leaves ocpp-core alone.
  pub handle-IsSilent :
      (id : String) (raw : Bytes) (w : World S)
      → ((m : Message) → decode raw ≡ ok m → m.message_type_id ≢ call)
      → IsSilent w (handle library h id raw w)
  unfolding handle handle_decoded
  handle-IsSilent id raw w no_call = elim (Result-cases (decode raw)) [
    | inl (e, refused) ↦ rw (refused, handle_decoded) (emit-IsSilent _ w)
    | inr (m, decoded) ↦
        rw (decoded, handle_decoded)
          (let (p, q) = handle_message-IsSilent id m (emit _ w) (no_call m decoded) in
            (p ∙ published-emit _ w, q))
  ]
