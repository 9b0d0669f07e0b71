-- ===== src/Core/Api/Decisions.antt =====
-- What the handlers of api/server.go answer to an envelope, for each outcome of the decision.
use ocpp_simulator.Base.{
  ℕ, ℤ, pos, ◌≤◌, ◌<◌, ◌≡◌, ◌≢◌, refl, ap, String, ◌==◌, Bool, true, false, ◌⊎◌, inl, inr, List, [],
  ◌∷◌, arith, Bool-cases, Option-cases, none, some, Contains, select, eq_iff,
}
use ocpp_simulator.Result.{Error, Result, ok, err, msg}
use ocpp_simulator.Result.Laws.{Result-cases}
use ocpp_simulator.Json.{Json, json, object}
use ocpp_simulator.Core.Store.{Transaction, integer_limit, find, update_where, stopped_row}
use ocpp_simulator.Core.Store.Rows.{stop-cases}
use ocpp_simulator.Core.Store.Queries.{list_by_charge_point}
use ocpp_simulator.Core.Events.{RuntimeEvent}
use ocpp_simulator.Core.Transactions.{StartInput, stop_transaction}
use ocpp_simulator.Core.Transactions.Counter.{start-cases, started}
use ocpp_simulator.Core.Api.{
  Server, Backend, Response, write_json, write_error, envelope_json, read_envelope,
  no_authorize_req, no_start_tx_req, no_stop_tx_req, with_arguments, with_request, handle_request,
  StartTxReq, read_start_tx_req, start_conf, started_answer, start_request,
  handle_start_transaction, AuthorizeReq, authorize, record_runtime_event, handle_authorize,
  read_authorize_req, StopTxReq, read_stop_tx_req, has_number, found_transaction,
  find_transaction_by_numeric_id, stopped_answer, stop_found, stop_request, handle_stop_transaction,
  id_tag_info,
}

-- The envelope of the processor's client is read as its charge point and its payload.
pub handle_request-envelope :
    {R : Type 0} (read : Json → R → Result R) (zero : R)
    (next : String → R → Server → Response × Server) (id : String) (p : Json) (s : Server)
    → handle_request read zero next (json (envelope_json id p)) s
      ≡ with_arguments read zero next id (read p zero) s
unfolding handle_request with_request read_envelope
handle_request-envelope read zero next id p s = refl

-- An error of the API: an answer outside 200 to 299, behind which the state is as it was.
abbrev pub IsRefusal : Server → Response × Server → Type 0
IsRefusal s answer =
    (status : ℕ) × (message : String) × (300 ≤ status) × (answer ≡ (write_error status message, s))

tag_of : {tag : String} → (tag == "") ≡ false → tag ≢ ""
tag_of {tag} tagged empty = ground (arith, eq_iff tag "")

-- The input of a start, from the arguments of its request.
abbrev pub start_input : String → StartTxReq → StartInput
start_input id req = record {
  charge_point_id = id;
  evse_id = pos 1;
  connector_number = req.connector_id;
  id_tag = req.id_tag;
  meter_start = req.meter_start;
  ocpp_version = "1.6J";
}

module _ (env : Backend) where
  -- A start that was granted: the next numeric id in the answer, and one row more under it.
  abbrev pub IsStarted : String → Result StartTxReq → Server → Response × Server → Type 0
  IsStarted id arguments s answer =
      (req : StartTxReq) × (arguments ≡ ok req)
      × (req.id_tag ≢ "")
      × (s.transactions.next_id < integer_limit)
      × (answer ≡ (
        write_json 200 (
            envelope_json id (
              start_conf
                (record { transaction_id = s.transactions.next_id; status = "Accepted" }))),
        record s {
          transactions = started env.transaction_insert (start_input id req) s.transactions;
        },
      ))

  start_request-cases :
      (id : String) (req : StartTxReq) (s : Server)
      → IsStarted id (ok req) s (start_request env id req s)
        ⊎ IsRefusal s (start_request env id req s)
  unfolding start_request started_answer
  start_request-cases id req s = elim (Bool-cases (req.id_tag == "")) [
    | inl empty ↦ inr (400, "idTag is required", omega arith, rw empty refl)
    | inr tagged ↦ elim (start-cases env.transaction_insert (start_input id req) s.transactions) [
      | inl (room, granted) ↦ inl (req, refl, tag_of tagged, room, rw (tagged, granted) refl)
      | inr (e, failed) ↦ inr (500, env.error_text e, omega arith, rw (tagged, failed) refl)
    ]
  ]

  -- A start posted in an envelope is granted, or answered by an error that changes nothing.
  pub handle_start_transaction-cases :
      (id : String) (p : Json) (s : Server)
      → IsStarted id
          (read_start_tx_req p no_start_tx_req)
          s
          (handle_start_transaction env (json (envelope_json id p)) s)
        ⊎ IsRefusal s (handle_start_transaction env (json (envelope_json id p)) s)
  unfolding handle_start_transaction with_arguments
  handle_start_transaction-cases id p s =
      rw (handle_request-envelope read_start_tx_req no_start_tx_req (start_request env) id p s)
        (elim (Result-cases (read_start_tx_req p no_start_tx_req)) [
          | inl (e, refused) ↦
              inr (400, "invalid payload", omega arith, rw (refused, with_arguments) refl)
          | inr (req, arguments) ↦ rw (arguments, with_arguments) (start_request-cases id req s)
        ])

-- What the API relies on of PostgreSQL's ORDER BY: it lists no row that is not there.
abbrev pub ListsOnly : (List Transaction → List Transaction) → Type 0
ListsOnly order =
    (rows : List Transaction) (t : Transaction) → Contains t (order rows) → Contains t rows

find-cases :
    (p : Transaction → Bool) (rows : List Transaction)
    → (find p rows ≡ none)
      ⊎ ((t : Transaction) × (find p rows ≡ some t) × Contains t rows × (p t ≡ true))
unfolding find
find-cases p [] = inl refl
find-cases p (row ∷ rows) = elim (Bool-cases (p row)) [
  | inl hit ↦ inr (row, rw hit refl, inl refl, hit)
  | inr miss ↦ elim (find-cases p rows) [
    | inl absent ↦ inl (rw miss absent)
    | inr (t, found, there, hit) ↦ inr (t, rw miss found, inr there, hit)
  ]
]

Contains-select :
    (p : Transaction → Bool) (rows : List Transaction) (t : Transaction)
    → Contains t (select p rows)
    → Contains t rows × (p t ≡ true)
unfolding select
Contains-select p [] t h = absurd h
Contains-select p (row ∷ rows) t h = elim (Bool-cases (p row)) [
  | inl hit ↦
      let kept : (t ≡ row) ⊎ Contains t (select p rows) = rw hit at h in
      elim kept [
        | inl same ↦ (inl same, rw same hit)
        | inr later ↦ let (there, good) = Contains-select p rows t later in (inr there, good)
      ]
  | inr miss ↦ let (there, good) = Contains-select p rows t (rw miss at h) in (inr there, good)
]

module _ (env : Backend) (lists : ListsOnly env.newest_first) where
  -- A transaction that the API finds is stored, of the charge point, and has the number.
  pub find_transaction-cases :
      (id : String) (number : ℤ) (rows : List Transaction)
      → ((t : Transaction) × (find_transaction_by_numeric_id env id number rows ≡ ok t)
          × Contains t rows
          × (t.charge_point_id ≡ id)
          × (has_number number t.numeric_id ≡ true))
        ⊎ ((e : Error) × (find_transaction_by_numeric_id env id number rows ≡ err e))
  unfolding find_transaction_by_numeric_id list_by_charge_point found_transaction
  find_transaction-cases id number rows = elim (Option-cases env.transaction_list.failure) [
    | inr (e, failed) ↦ inr (e, rw failed refl)
    | inl works ↦
        elim (find-cases (λ row. has_number number row.numeric_id)
          (env.newest_first (select (λ row. row.charge_point_id == id) rows))) [
            | inl absent ↦ inr (msg "not found", rw (works, absent) refl)
            | inr (t, found, there, numbered) ↦
                let (stored, own) =
                  Contains-select (λ row. row.charge_point_id == id) rows t (lists _ t there) in
                inl
                  (t, rw (works, found) refl, stored, (eq_iff t.charge_point_id id).0 own, numbered)
          ]
  ]

  -- A stop that succeeded: of a stored transaction of the charge point with the number, whose stop
  -- columns are set.
  abbrev pub IsStopped : String → Result StopTxReq → Server → Response × Server → Type 0
  IsStopped id arguments s answer =
      (req : StopTxReq) × (t : Transaction) × (arguments ≡ ok req)
      × Contains t s.transactions.rows
      × (t.charge_point_id ≡ id)
      × (has_number req.transaction_id t.numeric_id ≡ true)
      × (answer ≡ (
        write_json 200 (envelope_json id (object (id_tag_info "Accepted"))),
        record s {
          transactions = record s.transactions {
            rows =
                update_where (λ row. row.id == t.id)
                  (stopped_row env.transaction_update req.meter_stop req.reason)
                  s.transactions.rows;
          };
        },
      ))

  stop_request-cases :
      (id : String) (req : StopTxReq) (s : Server)
      → IsStopped id (ok req) s (stop_request env id req s)
        ⊎ IsRefusal s (stop_request env id req s)
  unfolding stop_request stop_found stopped_answer stop_transaction
  stop_request-cases id req s =
      elim (find_transaction-cases id req.transaction_id s.transactions.rows) [
        | inr (e, absent) ↦ inr (404, "transaction not found", omega arith, rw absent refl)
        | inl (t, found, stored, own, numbered) ↦
            elim (stop-cases env.transaction_update t.id req.meter_stop req.reason
              s.transactions.rows) [
                | inl stops ↦ inl (req, t, refl, stored, own, numbered, rw (found, stops) refl)
                | inr (e, failed) ↦
                    inr (500, env.error_text e, omega arith, rw (found, failed) refl)
              ]
      ]

  -- A stop posted in an envelope ends a stored transaction, or is answered by an error that changes
  -- nothing.
  pub handle_stop_transaction-cases :
      (id : String) (p : Json) (s : Server)
      → IsStopped id
          (read_stop_tx_req p no_stop_tx_req)
          s
          (handle_stop_transaction env (json (envelope_json id p)) s)
        ⊎ IsRefusal s (handle_stop_transaction env (json (envelope_json id p)) s)
  unfolding handle_stop_transaction with_arguments
  handle_stop_transaction-cases id p s =
      rw (handle_request-envelope read_stop_tx_req no_stop_tx_req (stop_request env) id p s)
        (elim (Result-cases (read_stop_tx_req p no_stop_tx_req)) [
          | inl (e, refused) ↦
              inr (400, "invalid payload", omega arith, rw (refused, with_arguments) refl)
          | inr (req, arguments) ↦ rw (arguments, with_arguments) (stop_request-cases id req s)
        ])

module _ (env : Backend) where
  -- An authorization: accepted, with nothing changed but the runtime events.
  abbrev pub IsAuthorized : String → Result AuthorizeReq → Server → Response × Server → Type 0
  IsAuthorized id arguments s answer =
      (req : AuthorizeReq) × (events : List RuntimeEvent) × (arguments ≡ ok req)
      × (req.id_tag ≢ "")
      × (answer ≡ (
        write_json 200 (envelope_json id (object (id_tag_info "Accepted"))),
        record s { events = events },
      ))

  only_events :
      (id : String) (s : Server)
      → record_runtime_event env id "transaction.authorized" "info" "idTag accepted" s ≡ record s {
        events =
            (record_runtime_event env id "transaction.authorized" "info" "idTag accepted" s).events;
      }
  unfolding record_runtime_event
  only_events id s = refl

  authorize-cases :
      (id : String) (req : AuthorizeReq) (s : Server)
      → IsAuthorized id (ok req) s (authorize env id req s) ⊎ IsRefusal s (authorize env id req s)
  unfolding authorize
  authorize-cases id req s = elim (Bool-cases (req.id_tag == "")) [
    | inl empty ↦ inr (400, "idTag is required", omega arith, rw empty refl)
    | inr tagged ↦ inl (
      req,
      (record_runtime_event env id "transaction.authorized" "info" "idTag accepted" s).events,
      refl,
      tag_of tagged,
      rw tagged (
          ap (λ s'. (write_json 200 (envelope_json id (object (id_tag_info "Accepted"))), s'))
            (only_events id s)),
    )
  ]

  -- An authorization posted in an envelope is accepted, or answered by an error that changes
  -- nothing.
  pub handle_authorize-cases :
      (id : String) (p : Json) (s : Server)
      → IsAuthorized id
          (read_authorize_req p no_authorize_req)
          s
          (handle_authorize env (json (envelope_json id p)) s)
        ⊎ IsRefusal s (handle_authorize env (json (envelope_json id p)) s)
  unfolding handle_authorize with_arguments
  handle_authorize-cases id p s =
      rw (handle_request-envelope read_authorize_req no_authorize_req (authorize env) id p s)
        (elim (Result-cases (read_authorize_req p no_authorize_req)) [
          | inl (e, refused) ↦
              inr (400, "invalid payload", omega arith, rw (refused, with_arguments) refl)
          | inr (req, arguments) ↦ rw (arguments, with_arguments) (authorize-cases id req s)
        ])
