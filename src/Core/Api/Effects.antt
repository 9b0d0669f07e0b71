-- ===== src/Core/Api/Effects.antt =====
-- What the handlers of authorize, start and stop do to the transaction service.
use ocpp_simulator.Base.{ℤ, ◌≡◌, refl, String, ◌==◌, ◌⊎◌, inl, inr, Bool-cases}
use ocpp_simulator.Result.{Result, ok, err}
use ocpp_simulator.Result.Laws.{Result-cases}
use ocpp_simulator.Json.{Json, json}
use ocpp_simulator.Core.Store.{Transaction}
use ocpp_simulator.Core.Transactions.{Service, StartInput, StartResult, start, stop_transaction}
use ocpp_simulator.Core.Transactions.Restarts.{Operation, starts, stops, apply}
use ocpp_simulator.Core.Api.{
  Server, Backend, envelope_json, with_arguments, read_authorize_req, read_start_tx_req,
  read_stop_tx_req, no_authorize_req, no_start_tx_req, no_stop_tx_req, StopTxReq, authorize,
  record_runtime_event, handle_authorize, started_answer, start_request, handle_start_transaction,
  stopped_answer, stop_found, stop_request, handle_stop_transaction, find_transaction_by_numeric_id,
}
use ocpp_simulator.Core.Api.Decisions.{handle_request-envelope, start_input}

module _ (env : Backend) where
  started_answer-transactions :
      (id : String) (r : Result StartResult × Service) (s : Server)
      → (started_answer env id r s).1.transactions ≡ r.1
  unfolding started_answer
  started_answer-transactions id (err e, t) s = refl
  started_answer-transactions id (ok a, t) s = refl

  stopped_answer-transactions :
      (id : String) (r : Result (Unit {0}) × Service) (s : Server)
      → (stopped_answer env id r s).1.transactions ≡ r.1
  unfolding stopped_answer
  stopped_answer-transactions id (err e, t) s = refl
  stopped_answer-transactions id (ok a, t) s = refl

  -- The service is as it was, or as one of the operations leaves it.
  abbrev pub Applies : (Operation → Type 0) → Server → Server → Type 0
  Applies P s s' =
      (s'.transactions ≡ s.transactions)
      ⊎ ((op : Operation) × P op × (s'.transactions ≡ apply op s.transactions))

  -- A start of the charge point, and a stop, each with the surroundings of its statement.
  abbrev pub IsStart : String → Operation → Type 0
  IsStart id op =
      (input : StartInput) × (input.charge_point_id ≡ id)
      × (op ≡ starts env.transaction_insert input)

  abbrev pub IsStop : Operation → Type 0
  IsStop op =
      (id : String) × (meter_stop : ℤ) × (reason : String) × (op
        ≡ stops env.transaction_update id meter_stop reason)

  pub handle_start_transaction-Applies :
      (id : String) (p : Json) (s : Server)
      → Applies (IsStart id) s (handle_start_transaction env (json (envelope_json id p)) s).1
  unfolding handle_start_transaction with_arguments start_request apply
  handle_start_transaction-Applies id p s =
      rw (handle_request-envelope read_start_tx_req no_start_tx_req (start_request env) id p s)
        (elim (Result-cases (read_start_tx_req p no_start_tx_req)) [
          | inl (e, refused) ↦ rw (refused, with_arguments) (inl refl)
          | inr (req, arguments) ↦
              rw (arguments, with_arguments)
                (elim (Bool-cases (req.id_tag == "")) [
                  | inl empty ↦ inl (rw empty refl)
                  | inr tagged ↦ inr (
                    starts env.transaction_insert (start_input id req),
                    (start_input id req, refl, refl),
                    rw tagged (
                        started_answer-transactions id
                          (start env.transaction_insert (start_input id req) s.transactions) s),
                  )
                ])
        ])

  stop_found-Applies :
      (id : String) (req : StopTxReq) (found : Result Transaction) (s : Server)
      → Applies IsStop s (stop_found env id req found s).1
  unfolding stop_found apply
  stop_found-Applies id req (err e) s = inl refl
  stop_found-Applies id req (ok t) s = inr (
    stops env.transaction_update t.id req.meter_stop req.reason,
    (t.id, req.meter_stop, req.reason, refl),
    stopped_answer-transactions id
        (stop_transaction env.transaction_update t.id req.meter_stop req.reason s.transactions) s,
  )

  pub handle_stop_transaction-Applies :
      (id : String) (p : Json) (s : Server)
      → Applies IsStop s (handle_stop_transaction env (json (envelope_json id p)) s).1
  unfolding handle_stop_transaction with_arguments stop_request
  handle_stop_transaction-Applies id p s =
      rw (handle_request-envelope read_stop_tx_req no_stop_tx_req (stop_request env) id p s)
        (elim (Result-cases (read_stop_tx_req p no_stop_tx_req)) [
          | inl (e, refused) ↦ rw (refused, with_arguments) (inl refl)
          | inr (req, arguments) ↦
              rw (arguments, with_arguments)
                (stop_found-Applies id req
                  (find_transaction_by_numeric_id env id req.transaction_id s.transactions.rows) s)
        ])

  pub handle_authorize-transactions :
      (id : String) (p : Json) (s : Server)
      → (handle_authorize env (json (envelope_json id p)) s).1.transactions ≡ s.transactions
  unfolding handle_authorize with_arguments authorize record_runtime_event
  handle_authorize-transactions id p s =
      rw (handle_request-envelope read_authorize_req no_authorize_req (authorize env) id p s)
        (elim (Result-cases (read_authorize_req p no_authorize_req)) [
          | inl (e, refused) ↦ rw (refused, with_arguments) refl
          | inr (req, arguments) ↦
              rw (arguments, with_arguments)
                (elim (Bool-cases (req.id_tag == "")) [
                  | inl empty ↦ rw empty refl
                  | inr tagged ↦ rw tagged refl
                ])
        ])
