-- ===== src/System/Stop.antt =====
-- StopTransaction and Authorize from the frame of the charge point to ocpp-core and back.
use ocpp_simulator.Base.{
  ◌≡◌, ◌≢◌, refl, ap, ◌∙◌, String, ◌==◌, ◌⊎◌, inl, inr, List, true, none, some, Contains,
}
use ocpp_simulator.Result.{ok, err}
use ocpp_simulator.Json.{Json, Bytes, json, object}
use ocpp_simulator.Message.{Message, call, generic_error}
use ocpp_simulator.Codec.{decode}
use ocpp_simulator.Codec.Shape.{decode-WellFormed}
use ocpp_simulator.Schemas.{SchemaLibrary}
use ocpp_simulator.Processor.CoreClient.{core_payload, post_result}
use ocpp_simulator.Processor.Handler.{Handler, World, validate_response_schema, handle}
use ocpp_simulator.Processor.Handler.Outcomes.{Rejected}
use ocpp_simulator.Processor.Handler.CoreAnswers.{
  authorizes, Answered, handle-Answered, handle-core_failed,
}
use ocpp_simulator.Core.Events.{RuntimeEvent}
use ocpp_simulator.Core.Store.{Transaction, update_where, stopped_row}
use ocpp_simulator.Core.Api.Routes.{over_network}
use ocpp_simulator.Core.Api.{
  Server, Backend, answers, Response, StopTxReq, read_stop_tx_req, no_stop_tx_req, AuthorizeReq,
  read_authorize_req, no_authorize_req, has_number, id_tag_info, envelope_json, handle_authorize,
}
use ocpp_simulator.Core.Api.Decisions.{handle_authorize-cases}
use ocpp_simulator.System.Client.{
  core_client, core_client-authorize, asked, asked-cases, asked_refused, IsLost, call-payload,
}

-- { "idTagInfo": { "status": "Accepted" } }
abbrev pub accepted : Json
accepted = object (id_tag_info "Accepted")

-- The rows of ocpp-core with the stop columns of one transaction set.
abbrev pub with_stopped : Backend → StopTxReq → Transaction → Server → Server
with_stopped env req t s = record s {
  transactions = record s.transactions {
    rows =
        update_where (λ row. row.id == t.id)
          (stopped_row env.transaction_update req.meter_stop req.reason) s.transactions.rows;
  };
}

module _ (library : SchemaLibrary) (env : Backend) (unrouted : String → Response)
    (base_url : String) (h : Handler Server)
    (wired : h.core ≡ some (core_client library env unrouted base_url)) where
  -- The CALLRESULT for a stop of a stored transaction of the charge point, with the number in the
  -- frame; its row is stopped.
  pub record Stopped (id : String) (m : Message) (w w' : World Server) : Type 0 where
    pub arguments : Json
    pub req : StopTxReq
    pub transaction : Transaction
    pub from_frame : m.payload ≡ json arguments
    pub read_as : read_stop_tx_req arguments no_stop_tx_req ≡ ok req
    pub stored : Contains transaction w.core_state.transactions.rows
    pub own : transaction.charge_point_id ≡ id
    pub numbered : has_number req.transaction_id transaction.numeric_id ≡ true
    pub answered_by :
        Answered library h
          (core_client library env unrouted base_url)
          wired
          id
          m
          accepted
          (with_stopped env req transaction w.core_state)
          w
          w'

  -- The CALLERROR for a stop whose answer is lost: the row is stopped all the same.
  pub record StopUnheard (id : String) (m : Message) (w w' : World Server) : Type 0 where
    pub lost : IsLost env.network
    pub arguments : Json
    pub req : StopTxReq
    pub transaction : Transaction
    pub from_frame : m.payload ≡ json arguments
    pub read_as : read_stop_tx_req arguments no_stop_tx_req ≡ ok req
    pub stored : Contains transaction w.core_state.transactions.rows
    pub own : transaction.charge_point_id ≡ id
    pub numbered : has_number req.transaction_id transaction.numeric_id ≡ true
    pub rejected :
        Rejected library h generic_error id m
          (record w { core_state = with_stopped env req transaction w.core_state })
          w'

  -- The CALLRESULT Accepted for an id tag that is not empty; ocpp-core keeps all but its events.
  pub record Authorized (id : String) (m : Message) (w w' : World Server) : Type 0 where
    pub arguments : Json
    pub req : AuthorizeReq
    pub events : List RuntimeEvent
    pub from_frame : m.payload ≡ json arguments
    pub read_as : read_authorize_req arguments no_authorize_req ≡ ok req
    pub tagged : req.id_tag ≢ ""
    pub answered_by :
        Answered library h
          (core_client library env unrouted base_url)
          wired
          id
          m
          accepted
          (record w.core_state { events = events })
          w
          w'

  -- The CALLERROR for an authorization whose answer is lost: its event may be recorded all the same.
  pub record AuthorizeUnheard (id : String) (m : Message) (w w' : World Server) : Type 0 where
    pub lost : IsLost env.network
    pub arguments : Json
    pub req : AuthorizeReq
    pub events : List RuntimeEvent
    pub from_frame : m.payload ≡ json arguments
    pub read_as : read_authorize_req arguments no_authorize_req ≡ ok req
    pub tagged : req.id_tag ≢ ""
    pub rejected :
        Rejected library h generic_error id m
          (record w { core_state = record w.core_state { events = events } })
          w'

  -- A CALL of Authorize is answered by the CALLRESULT Accepted, for an id tag that is not empty,
  -- and ocpp-core changes nothing but its runtime events; or by a CALLERROR, and ocpp-core is left
  -- as it was; or, only where the network loses the answer of ocpp-core or its body, by a
  -- CALLERROR although ocpp-core may have changed its runtime events, for an id tag that is not
  -- empty. This is where the handler's validation accepts the response.
  pub handle-authorize :
      (id : String) (raw : Bytes) (m : Message) (w : World Server)
      → decode raw ≡ ok m
      → m.message_type_id ≡ call
      → m.action ≡ "Authorize"
      → validate_response_schema library h m.action (json accepted) ≡ none
      → Authorized id m w (handle library h id raw w)
        ⊎ Rejected library h generic_error id m w (handle library h id raw w)
        ⊎ AuthorizeUnheard id m w (handle library h id raw w)
  unfolding core_payload post_result over_network
  handle-authorize id raw m w decoded is_call named valid =
      let core = core_client library env unrouted base_url in
      let s = w.core_state in
      let (p, is_json) = call-payload m (decode-WellFormed raw m decoded) is_call in
      let asks : core.authorize id m.payload s
          ≡ asked env.network (handle_authorize env (json (envelope_json id p)) s) s =
        rw is_json (core_client-authorize library env unrouted base_url id p s) in
      let answer = handle_authorize env (json (envelope_json id p)) s in
      let failing =
        handle-core_failed library h core wired authorizes id raw m w decoded is_call named in
      elim (handle_authorize-cases env id p s) [
        | inl (req, events, read_as, tagged, granted) ↦
            let next : Server = record s { events = events } in
            elim (asked-cases env.network answer s) [
              | inl arrives ↦ inl (record {
                arguments = p;
                req = req;
                events = events;
                from_frame = is_json;
                read_as = read_as;
                tagged = tagged;
                answered_by =
                    handle-Answered library h core wired authorizes id raw m w decoded is_call named
                      (json (envelope_json id accepted)) accepted next
                      (asks
                        ∙ ap (λ network. asked network answer s) arrives
                        ∙ ap (λ a. asked answers a s) granted)
                      refl valid;
              })
              | inr (inl (e, failed)) ↦ inr (inl (failing e s (asks ∙ failed)))
              | inr (inr (lost, e, failed)) ↦ inr (
                  inr (record {
                    lost = lost;
                    arguments = p;
                    req = req;
                    events = events;
                    from_frame = is_json;
                    read_as = read_as;
                    tagged = tagged;
                    rejected = failing e next (asks ∙ failed ∙ ap (λ a. (err e, a.1)) granted);
                  }))
            ]
        | inr refusal ↦
            let (e, failed) = asked_refused env.network s answer refusal in
            inr (inl (failing e s (asks ∙ failed)))
      ]
