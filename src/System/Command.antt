-- ===== src/System/Command.antt =====
-- A command from end to end: a POST to ocpp-core, whose frame goes over the MQTT broker and the
-- gateway to the WebSocket of the charge point.
mod Tests
use ocpp_simulator.Base.{
  ℕ, ◌≡◌, refl, sym, subst, ap, ◌∙◌, String, Bool, List, [], ◌∷◌, true, false, Option, none, some,
  arith,
}
use ocpp_simulator.Result.{Error, ok}
use ocpp_simulator.Result.Laws.{ok_inj}
use ocpp_simulator.Json.{Bytes}
use ocpp_simulator.Json.Unmarshal.{unmarshal}
use ocpp_simulator.Message.{Message, call}
use ocpp_simulator.Codec.{decode}
use ocpp_simulator.Schemas.{SchemaLibrary}
use ocpp_simulator.Topic.{out_topic}
use ocpp_simulator.Csms as Csms
use ocpp_simulator.Csms.Understood.{Command, action_of, Understood}
use ocpp_simulator.Core.Api.{Server, Backend, Response, Envelope, read_envelope, empty_envelope}
use ocpp_simulator.Core.Api.Commands.Accepted.{HasTag}
use ocpp_simulator.Core.Api.Commands.Endpoints.{
  Endpoint, request_line, endpoint_action, serve-IsQueued,
}
use ocpp_simulator.Core.Api.Routes.{serve}
use ocpp_simulator.Gateway.{Gateway}
use ocpp_simulator.Gateway.Outbound.{pump_outbound}
use ocpp_simulator.System.Session.{
  MqttBroker, IsLossless, InSession, on_topic, dispatch, dispatch-written,
}

-- The frames that the MQTT client has taken.
unfoldable pub taken : List (String × Bytes × Option Error) → List (String × Bytes)
taken [] = []
taken ((topic, raw, none) ∷ fs) = (topic, raw) ∷ taken fs
taken ((topic, raw, some e) ∷ fs) = taken fs

module _ (library : SchemaLibrary) (env : Backend) (unrouted : String → Response)
    (mqtt : MqttBroker) where
  -- The publications are those of this command.
  unfoldable pub command :
      (Bytes → Bool)
      → String
      → Endpoint
      → Bytes
      → Server
      → Gateway
      → Response × Server × Option Gateway
  unfolding taken serve dispatch
  command first id e body s g =
      let (response, s') =
        serve library env unrouted (request_line e) body
          (record s { commands = record s.commands { published = [] } }) in
      (
        response,
        s',
        dispatch first (out_topic id) (mqtt.carry (out_topic id) (taken s'.commands.published)) g,
      )

  -- A frame that the charge point reads as a command of the endpoint: a CALL of its action, whose
  -- payload its parser takes for the command, a RemoteStartTransaction with a tag that is not empty.
  pub record IsCommand (e : Endpoint) (raw : Bytes) : Type 0 where
    pub message : Message
    pub asked : Command
    pub decoded : decode raw ≡ ok message
    pub is_call : message.message_type_id ≡ call
    pub named : message.action ≡ endpoint_action e
    pub same_kind : action_of asked ≡ endpoint_action e
    pub tagged : HasTag library env asked
    pub understood : Understood asked message.payload

  -- Where the server answers 202 to a POST of a command for a charge point in session, over a broker
  -- that loses nothing: one turn of the outbound loop in which the write does not fail writes one
  -- frame to the WebSocket of the charge point, which it reads as a command of the endpoint. The
  -- transactions and the runtime events are as they were.
  pub command-IsCommand :
      (first : Bytes → Bool) (r : ℕ) (e : Endpoint) (body : Bytes) (s : Server) (g : Gateway)
      (req : Envelope)
      → unmarshal read_envelope body empty_envelope ≡ ok req
      → InSession g req.charge_point_id r
      → IsLossless mqtt
      → (command first req.charge_point_id e body s g).0.status ≡ 202
      → (raw : Bytes) × (g' : Gateway) × IsCommand e raw
        × ((command first req.charge_point_id e body s g).2 ≡ some g')
        × ((choice : Bool) → (pump_outbound r ((choice, false) ∷ []) g').0 ≡ raw ∷ [])
        × ((command first req.charge_point_id e body s g).1.transactions ≡ s.transactions)
        × ((command first req.charge_point_id e body s g).1.events ≡ s.events)
  unfolding command taken
  command-IsCommand first r e body s g req addressed session lossless accepted =
      let s₀ : Server = record s { commands = record s.commands { published = [] } } in
      let topic = out_topic req.charge_point_id in
      let (other, read, queued) = serve-IsQueued library env unrouted e body s₀ accepted in
      let (c, kind, tagged, sent, transactions, events) = queued in
      let same : other ≡ req = ok_inj (sym read ∙ addressed) in
      let (raw, payload, counted, published, decoded, understood) = sent in
      let (g', dispatched, written) =
        dispatch-written first req.charge_point_id r (raw ∷ []) g session.handled
          session.active.registered session.active.opened session.drained (omega arith) in
      (
        raw,
        g',
        record {
          message = _;
          asked = c;
          decoded = decoded;
          is_call = refl;
          named = refl;
          same_kind = kind;
          tagged = tagged;
          understood = understood;
        },
        ap (λ fs. dispatch first topic (mqtt.carry topic (taken fs)) g)
              (published
                ∙ ap (λ (o : Envelope). (out_topic o.charge_point_id, raw, none) ∷ []) same)
            ∙ ap (λ ms. dispatch first topic ms g) (lossless.same_topic topic (raw ∷ []))
            ∙ dispatched,
        λ choice. written (choice ∷ []) refl,
        transactions,
        events,
      )
