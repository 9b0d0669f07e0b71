-- ===== src/System/History.antt =====
-- Any deliveries to the message processor, and what the transaction service of ocpp-core goes
-- through behind them. Each delivery has its own surroundings, so the database draws new keys and may
-- fail at any of them. Each callback runs to its end before the next begins, which the client does not
-- demand of them: starts that overlap are in Core/Transactions/Interleaved and Steady.
pub mod Tests
use ocpp_simulator.Base.{
  ℕ, ◌≡◌, ◌≢◌, refl, sym, subst, ap, ◌∙◌, String, ◌==◌, ◌⊎◌, inl, inr, List, [], ◌∷◌, some,
  AllPairs, Bool-cases,
}
use ocpp_simulator.Json.{Json, Bytes}
use ocpp_simulator.Message.{Message, call}
use ocpp_simulator.Codec.{decode}
use ocpp_simulator.Codec.Shape.{decode-WellFormed}
use ocpp_simulator.Schemas.{SchemaLibrary}
use ocpp_simulator.Topic.{charge_point_id_from_topic}
use ocpp_simulator.Processor.Handler.{Handler, World, handle}
use ocpp_simulator.Processor.Handler.CoreAnswers.{CoreAction, authorizes, starts, stops, method}
use ocpp_simulator.Processor.Handler.Effects.{handle-core_state}
use ocpp_simulator.Processor.Subscription.{on_message}
use ocpp_simulator.Core.Transactions.{Service}
use ocpp_simulator.Core.Transactions.Counter.{Inv}
use ocpp_simulator.Core.Transactions.Restarts.{
  Operation, apply, granted, apply-Inv, granted-distinct,
}
use ocpp_simulator.Core.Api.{
  Server, Backend, Response, envelope_json, handle_authorize, handle_start_transaction,
  handle_stop_transaction,
}
use ocpp_simulator.Core.Api.Effects.{
  Applies, IsStart, IsStop, handle_start_transaction-Applies, handle_stop_transaction-Applies,
  handle_authorize-transactions,
}
use ocpp_simulator.System.Client.{
  core_client, core_client-authorize, core_client-start, core_client-stop, asked, asked-kept,
  call-payload,
}

-- A message on a topic, with what ocpp-core meets while it is handled.
pub record Delivery : Type 0 where
  pub backend : Backend
  pub topic : String
  pub payload : Bytes

-- The service behind a history of operations.
unfoldable pub apply_all : List Operation → Service → Service
unfolding apply
apply_all [] t = t
apply_all (op ∷ ops) t = apply_all ops (apply op t)

-- A start of the charge point of the topic, or a stop.
abbrev pub IsRequested : Delivery → Operation → Type 0
IsRequested d op = IsStart d.backend (charge_point_id_from_topic d.topic) op ⊎ IsStop d.backend op

-- Operations that deliveries ask for, in their order, at most one for each.
pub data Requested : List Delivery → List Operation → Type 0 where
  none_left : Requested [] []
  kept :
      {ds : List Delivery} {ops : List Operation} (d : Delivery)
      → Requested ds ops
      → Requested (d ∷ ds) ops
  requested :
      {ds : List Delivery} {ops : List Operation} (d : Delivery) (op : Operation)
      → IsRequested d op
      → Requested ds ops
      → Requested (d ∷ ds) (op ∷ ops)

pub apply_all-Inv : (ops : List Operation) (t : Service) → Inv t → Inv (apply_all ops t)
unfolding apply_all
apply_all-Inv [] t v = v
apply_all-Inv (op ∷ ops) t v = apply_all-Inv ops (apply op t) (apply-Inv op t v)

module _ (library : SchemaLibrary) (unrouted : String → Response) (base_url : String)
    (h : Backend → Handler Server)
    (wired : (env : Backend)
      → (h env).core ≡ some (core_client library env unrouted base_url)) where
  -- The callback of the processor on each delivery.
  unfoldable pub deliver_all : List Delivery → World Server → World Server
  unfolding on_message
  deliver_all [] w = w
  deliver_all (d ∷ ds) w = deliver_all ds (on_message library (h d.backend) d.topic d.payload w)

  -- Over a network, the service is as the handler leaves it or as it was.
  asked-Applies :
      (P : Operation → Type 0) (env : Backend) (answer : Response × Server) (s : Server)
      → Applies env P s answer.1
      → Applies env P s (asked env.network answer s).1
  asked-Applies P env answer s applies = elim (asked-kept env.network answer s) [
    | inl same ↦ inl (ap (λ (t : Server). t.transactions) same)
    | inr left ↦ subst (Applies env P s) (sym left) applies
  ]

  method-Applies :
      (a : CoreAction) (env : Backend) (id : String) (p : Json) (s : Server)
      → Applies env
          (λ op. IsStart env id op ⊎ IsStop env op)
          s
          (method a (core_client library env unrouted base_url) id (Bytes.json p) s).1
  method-Applies authorizes env id p s =
      rw (core_client-authorize library env unrouted base_url id p s) (
        asked-Applies (λ op. IsStart env id op ⊎ IsStop env op) env
          (handle_authorize env (Bytes.json (envelope_json id p)) s) s
          (inl (handle_authorize-transactions env id p s)))
  method-Applies starts env id p s = rw (core_client-start library env unrouted base_url id p s) (
      asked-Applies (λ op. IsStart env id op ⊎ IsStop env op) env
        (handle_start_transaction env (Bytes.json (envelope_json id p)) s) s
        (elim (handle_start_transaction-Applies env id p s) [
          | inl same ↦ inl same
          | inr (op, start, applied) ↦ inr (op, inl start, applied)
        ]))
  method-Applies stops env id p s = rw (core_client-stop library env unrouted base_url id p s) (
      asked-Applies (λ op. IsStart env id op ⊎ IsStop env op) env
        (handle_stop_transaction env (Bytes.json (envelope_json id p)) s) s
        (elim (handle_stop_transaction-Applies env id p s) [
          | inl same ↦ inl same
          | inr (op, stop, applied) ↦ inr (op, inr stop, applied)
        ]))

  handle-Applies :
      (env : Backend) (id : String) (raw : Bytes) (w : World Server)
      → Applies env
          (λ op. IsStart env id op ⊎ IsStop env op)
          w.core_state
          (handle library (h env) id raw w).core_state
  handle-Applies env id raw w =
      let core = core_client library env unrouted base_url in
      elim (handle-core_state library (h env) core (wired env) id raw w) [
        | inl same ↦ inl (ap (λ (s : Server). s.transactions) same)
        | inr (a, m, decoded, is_call, left) ↦
            let (p, is_json) = call-payload m (decode-WellFormed raw m decoded) is_call in
            subst (Applies env (λ op. IsStart env id op ⊎ IsStop env op) w.core_state)
              (sym (left ∙ ap (λ b. (method a core id b w.core_state).1) is_json))
              (method-Applies a env id p w.core_state)
      ]

  on_message-Applies :
      (d : Delivery) (w : World Server)
      → Applies d.backend
          (IsRequested d)
          w.core_state
          (on_message library (h d.backend) d.topic d.payload w).core_state
  unfolding on_message
  on_message-Applies d w = elim (Bool-cases (charge_point_id_from_topic d.topic == "")) [
    | inl foreign ↦ rw foreign (inl refl)
    | inr own ↦ rw own (handle-Applies d.backend (charge_point_id_from_topic d.topic) d.payload w)
  ]

  pub deliver_all-Requested :
      (ds : List Delivery) (w : World Server)
      → (ops : List Operation) × Requested ds ops
        × ((deliver_all ds w).core_state.transactions ≡ apply_all ops w.core_state.transactions)
  unfolding deliver_all apply_all
  deliver_all-Requested [] w = ([], none_left, refl)
  deliver_all-Requested (d ∷ ds) w =
      let w' = on_message library (h d.backend) d.topic d.payload w in
      let (ops, asked, same) = deliver_all-Requested ds w' in
      elim (on_message-Applies d w) [
        | inl alike ↦ (ops, kept d asked, same ∙ ap (apply_all ops) alike)
        | inr (op, request, applied) ↦
            (op ∷ ops, requested d op request asked, same ∙ ap (apply_all ops) applied)
      ]

  -- Whatever is delivered to the processor, over ocpp-core behind its client and a network that
  -- may lose requests and answers, in any order of the callbacks in which each runs to its end
  -- before the next begins: the transaction service goes through a history of starts and stops, in
  -- the order of the callbacks and at most one for each, where a start is of the charge point
  -- whose topic carried the frame. Where its counter is above each stored id and none is shared,
  -- it is so behind the history too, and the history grants no id twice.
  pub deliver_all-history :
      (ds : List Delivery) (w : World Server)
      → Inv w.core_state.transactions
      → (ops : List Operation) × Requested ds ops
        × ((deliver_all ds w).core_state.transactions ≡ apply_all ops w.core_state.transactions)
        × Inv (deliver_all ds w).core_state.transactions
        × AllPairs (λ n m. n ≢ m) (granted ops w.core_state.transactions)
  deliver_all-history ds w v =
      let (ops, asked, same) = deliver_all-Requested ds w in
      (
        ops,
        asked,
        same,
        subst Inv (sym same) (apply_all-Inv ops w.core_state.transactions v),
        granted-distinct ops w.core_state.transactions v,
      )
