-- ===== src/Processor/Handler/Effects.antt =====
-- What a frame does to the state of ocpp-core.
use ocpp_simulator.Base.{
  String, ◌==◌, eq_iff, ◌≡◌, refl, sym, ap, ◌∙◌, ◌⊎◌, inl, inr, Option, none, some, true, arith,
  Bool-cases, ==ℤ_iff, ◌==ℤ◌, Option-cases,
}
use ocpp_simulator.Result.{Result, ok, err}
use ocpp_simulator.Result.Laws.{Result-cases, ok_inj}
use ocpp_simulator.Json.{Bytes}
use ocpp_simulator.Message.{Message, ErrorCode, call}
use ocpp_simulator.Codec.{decode}
use ocpp_simulator.Schemas.{SchemaLibrary}
use ocpp_simulator.Processor.CoreClient.{CoreClient}
use ocpp_simulator.Processor.Handler.{
  Handler, World, emit, deliver, deliver_encoded, publish_error, publish_valid, publish_result,
  respond, publish_response, finish_call, respond_to_call, handle, validate_response_schema,
}
use ocpp_simulator.Processor.Handler.Replies.{handle-call}
use ocpp_simulator.Processor.Handler.Outcomes.{handle-IsSilent}
use ocpp_simulator.Processor.Handler.CoreAnswers.{
  CoreAction, authorizes, starts, stops, core_action, method, respond-core,
}

module _ {S : Type 0} (library : SchemaLibrary) (h : Handler S) where
  deliver_encoded-core_state :
      (id unique_id action message_type decision : String) (raw : Result Bytes) (w : World S)
      → (deliver_encoded library h id unique_id action message_type decision raw w).core_state
        ≡ w.core_state
  unfolding deliver_encoded deliver emit
  deliver_encoded-core_state id unique_id action message_type decision (err e) w = refl
  deliver_encoded-core_state id unique_id action message_type decision (ok raw) w = refl

  publish_error-core_state :
      (id unique_id : String) (code : ErrorCode) (description action : String) (w : World S)
      → (publish_error library h id unique_id code description action w).core_state ≡ w.core_state
  unfolding publish_error
  publish_error-core_state id unique_id code description action w =
      deliver_encoded-core_state id unique_id action "CALLERROR" _ _ w

  publish_result-core_state :
      (id unique_id : String) (payload : Bytes) (action : String) (w : World S)
      → (publish_result library h id unique_id payload action w).core_state ≡ w.core_state
  unfolding publish_result publish_valid
  publish_result-core_state id unique_id payload action w =
      elim (Option-cases (validate_response_schema library h action payload)) [
        | inl valid ↦
            rw (valid, publish_result)
              (deliver_encoded-core_state id unique_id action "CALLRESULT" _ _ w)
        | inr (e, refused) ↦
            rw (refused, publish_result) (publish_error-core_state id unique_id _ _ action w)
      ]

  -- The state that a response leaves ocpp-core in.
  abbrev left_in : Option (Result Bytes × S) → S → S
  left_in none s = s
  left_in (some (result, s')) s = s'

  finish_call-core_state :
      (id : String) (m : Message) (r : Option (Result Bytes × S)) (w : World S)
      → (finish_call library h id m r w).core_state ≡ left_in r w.core_state
  unfolding finish_call publish_response
  finish_call-core_state id m none w = publish_error-core_state id m.unique_id _ _ m.action w
  finish_call-core_state id m (some (err e, s)) w =
      publish_error-core_state id m.unique_id _ _ m.action (record w { core_state = s })
  finish_call-core_state id m (some (ok payload, s)) w =
      publish_result-core_state id m.unique_id payload m.action (record w { core_state = s })

  respond-left_in :
      (id action : String) (payload : Bytes) (s : S)
      → (left_in (respond library h id action payload s) s ≡ s)
        ⊎ ((a : CoreAction) × (action ≡ core_action a))
  unfolding respond
  respond-left_in id action payload s = elim (Bool-cases (action == "Authorize")) [
    | inl same ↦ inr (authorizes, (eq_iff _ _).0 same)
    | inr no_authorize ↦ elim (Bool-cases (action == "StartTransaction")) [
      | inl same ↦ inr (starts, (eq_iff _ _).0 same)
      | inr no_start ↦ elim (Bool-cases (action == "StopTransaction")) [
        | inl same ↦ inr (stops, (eq_iff _ _).0 same)
        | inr no_stop ↦ inl (ground arith)
      ]
    ]
  ]

  -- A frame leaves ocpp-core as it was, or it is a CALL of an action that ocpp-core decides, and
  -- leaves it as its method does.
  pub handle-core_state :
      (core : CoreClient S)
      → h.core ≡ some core
      → (id : String) (raw : Bytes) (w : World S)
      → ((handle library h id raw w).core_state ≡ w.core_state)
        ⊎ ((a : CoreAction) × (m : Message) × (decode raw ≡ ok m)
            × (m.message_type_id ≡ call)
            × ((handle library h id raw w).core_state
                ≡ (method a core id m.payload w.core_state).1))
  unfolding respond_to_call emit
  handle-core_state core wired id raw w = elim (Result-cases (decode raw)) [
    | inl (e, refused) ↦ inl (
        (handle-IsSilent library h id raw w
          (λ m decoded. let no : err e ≡ ok m = sym refused ∙ decoded in cc)).1)
    | inr (m, decoded) ↦ elim (Bool-cases (m.message_type_id ==ℤ call)) [
      | inr other ↦ inl (
          (handle-IsSilent library h id raw w (λ m' decoded' is_call.
            let same : m ≡ m' = ok_inj (sym decoded ∙ decoded') in
            let yes_call : (m.message_type_id ==ℤ call) ≡ true =
              (==ℤ_iff _ _).1 (ap (λ (x : Message). x.message_type_id) same ∙ is_call) in
            cc)).1)
      | inl test ↦
          let is_call = (==ℤ_iff _ _).0 test in
          let answers =
            ap (λ (v : World S). v.core_state) (handle-call library h id raw m w decoded is_call)
            ∙ finish_call-core_state id m (respond library h id m.action m.payload w.core_state)
                _ in
          elim (respond-left_in id m.action m.payload w.core_state) [
            | inl kept ↦ inl (answers ∙ kept)
            | inr (a, named) ↦ inr (
              a,
              m,
              decoded,
              is_call,
              answers
                  ∙ ap (λ x. left_in (respond library h id x m.payload w.core_state) w.core_state)
                      named
                  ∙ ap (λ r. left_in r w.core_state)
                      (respond-core library h core wired a id m.payload w.core_state),
            )
          ]
    ]
  ]
