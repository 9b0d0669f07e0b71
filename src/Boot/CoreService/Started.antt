-- ===== src/Boot/CoreService/Started.antt =====
-- How ocpp-core starts: ready to serve, or ended by an error with its cause.
use ocpp_simulator.Base.{
  [], true, false, ◌≡◌, refl, sym, subst, List, ◌∷◌, ◌+◌, none, some, All, AllPairs, inl, inr,
  Option-cases,
}
use ocpp_simulator.Result.{Error, ok, err, wrap, wrapping}
use ocpp_simulator.Mqtt.{dial, token_error, new_paho_broker}
use ocpp_simulator.Mqtt.Routes.{IsVisit}
use ocpp_simulator.Core.Store.{Transaction, Call, integer_limit, max_of, max_numeric_id}
use ocpp_simulator.Core.Store.Rows.{IsBelow}
use ocpp_simulator.Core.Events.{RuntimeEvent}
use ocpp_simulator.Core.Broker.{connect}
use ocpp_simulator.Core.Transactions.{Service, new_service, init_counter}
use ocpp_simulator.Core.Transactions.Counter.{Inv, IdsDiffer, init_counter-Inv}
use ocpp_simulator.Core.CanonLog.Start.{start_log, IsLogging}
use ocpp_simulator.Boot.{link_behind, checked, with_state, open_db, migrate}
use ocpp_simulator.Boot.Ends.{Ends, Ends->>=, Ends-wrapping, Ends-checked}
use ocpp_simulator.Boot.CoreService.{Surroundings, Process, database_url, boot}
use ocpp_simulator.Boot.FirstLink.{is_up, link_behind-connect}
use ocpp_simulator.Boot.CoreService.Logged.{asked_for, Logging, IsAsked, start_log-Ends}

-- Why a start ends: the database does not open or migrate, the counter is not read, or, where the
-- link is up, a subscription of the log fails.
pub data Fault (env : Surroundings) : Error → Type 0 where
  open_fails :
      (e : Error)
      → env.sql_open (database_url env) ≡ some e
      → Fault env (wrap "open db" (wrap "open db" e))
  dialect_fails :
      (e : Error) → env.goose_dialect ≡ some e → Fault env (wrap "migrate" (wrap "goose dialect" e))
  up_fails : (e : Error) → env.goose_up ≡ some e → Fault env (wrap "migrate" (wrap "goose up" e))
  query_fails :
      (e : Error)
      → env.max_query.failure ≡ some e
      → Fault env (wrap "init transaction counter" (wrap "read max numeric_id" e))
  inbound_fails :
      (e : Error)
      → is_up env.retrying env.connect_token ≡ true
      → token_error "mqtt subscribe timeout" env.inbound_token ≡ some e
      → Fault env (wrap "canonlog start" (wrap "subscribe ocpp/+/in" e))
  outbound_fails :
      (e : Error)
      → is_up env.retrying env.connect_token ≡ true
      → token_error "mqtt subscribe timeout" env.outbound_token ≡ some e
      → Fault env (wrap "canonlog start" (wrap "subscribe ocpp/+/out" e))

-- The counter next to the greatest stored id.
abbrev pub above : List Transaction → Service
above rows = record { next_id = max_of 0 rows + 1; rows = rows }

-- Ready: the table is as it was and the counter next to its greatest id, and each direction of the log has its
-- handler until the closure runs. The client has been asked for both where IsConnected reports a link
-- behind Connect, and for neither otherwise. No step before has failed.
pub record IsReady (env : Surroundings) (rows : List Transaction) (p : Process) : Type 0 where
  pub counts : p.server.transactions ≡ above rows
  pub counted : Inv p.server.transactions
  pub logging : IsLogging (ok p.log_unsubscribe, p.broker)
  pub asked : p.broker.requests ≡ dial ∷ asked_for (is_up env.retrying env.connect_token)
  pub opened : env.sql_open (database_url env) ≡ none
  pub migrated : (env.goose_dialect ≡ none) × (env.goose_up ≡ none)
  pub queried : env.max_query.failure ≡ none
  pub heard :
      is_up env.retrying env.connect_token ≡ true
      → token_error "mqtt subscribe timeout" env.inbound_token ≡ none
  pub told :
      is_up env.retrying env.connect_token ≡ true
      → token_error "mqtt subscribe timeout" env.outbound_token ≡ none

abbrev IsCounted : Call → List Transaction → Unit {0} × Service → Type 0
IsCounted call rows c = Inv c.1 × (c.1 ≡ above rows) × (call.failure ≡ none)

init_counter-works :
    (call : Call) (rows : List Transaction)
    → call.failure ≡ none
    → init_counter call (new_service rows) ≡ (ok tt, above rows)
unfolding init_counter max_numeric_id new_service
init_counter-works call rows works = rw (works, max_numeric_id, init_counter) refl

init_counter-fails :
    (call : Call) (rows : List Transaction) (e : Error)
    → call.failure ≡ some e
    → (init_counter call (new_service rows)).0 ≡ err (wrap "read max numeric_id" e)
unfolding init_counter max_numeric_id
init_counter-fails call rows e failed = rw (failed, max_numeric_id, init_counter) refl

init_counter-Ends :
    (F : Error → Type 0) (call : Call) (rows : List Transaction)
    → All (λ row. IsBelow integer_limit row.numeric_id) rows
    → AllPairs IdsDiffer rows
    → ((e : Error)
        → call.failure ≡ some e
        → F (wrap "init transaction counter" (wrap "read max numeric_id" e)))
    → Ends
        (IsCounted call rows)
        F
        (with_state "init transaction counter" (init_counter call (new_service rows)))
unfolding new_service
init_counter-Ends F call rows fit distinct fault = elim (Option-cases call.failure) [
  | inl works ↦
      let counted = init_counter-works call rows works in
      let kept = init_counter-Inv call (new_service rows) works fit distinct in
      subst (λ r. Ends (IsCounted call rows) F (with_state "init transaction counter" r))
        (sym counted) (subst (λ r. Inv r.1) counted kept, refl, works)
  | inr (e, failed) ↦
      subst
        (λ a.
          Ends (IsCounted call rows) F
            (with_state "init transaction counter" (a, (init_counter call (new_service rows)).1)))
        (sym (init_counter-fails call rows e failed)) (fault e failed)
]

module _ (env : Surroundings) (visits : IsVisit env.visit) where
  opened-Ends :
      Ends
        (λ _. env.sql_open (database_url env) ≡ none)
        (Fault env)
        (wrapping "open db" (open_db env.sql_open (database_url env)))
  unfolding open_db
  opened-Ends =
      let works = λ (_ : Unit {0}). env.sql_open (database_url env) ≡ none in
      Ends-wrapping works (Fault env) "open db" (open_db env.sql_open (database_url env)) (
        Ends-checked works (λ e. Fault env (wrap "open db" e)) "open db"
          (env.sql_open (database_url env)) (λ opened. opened) open_fails)

  migrated-Ends :
      Ends
        (λ _. (env.goose_dialect ≡ none) × (env.goose_up ≡ none))
        (Fault env)
        (wrapping "migrate" (migrate env.goose_dialect env.goose_up))
  unfolding migrate
  migrated-Ends =
      let fault = λ (e : Error). Fault env (wrap "migrate" e) in
      let spoken = λ (_ : Unit {0}). env.goose_dialect ≡ none in
      let works = λ (_ : Unit {0}). (env.goose_dialect ≡ none) × (env.goose_up ≡ none) in
      Ends-wrapping works (Fault env) "migrate" (migrate env.goose_dialect env.goose_up) (
        Ends->>= spoken works fault (checked "goose dialect" env.goose_dialect)
          (λ _. checked "goose up" env.goose_up)
          (Ends-checked spoken fault "goose dialect" env.goose_dialect (λ set. set) dialect_fails)
          (λ _ set. Ends-checked works fault "goose up" env.goose_up (λ up. (set, up)) up_fails))

  abbrev IsAnswered : Logging → Type 0
  IsAnswered = IsAsked (is_up env.retrying env.connect_token) env.inbound_token env.outbound_token

  logged-Ends : Ends IsAnswered (Fault env) (
      with_state "canonlog start" (
        start_log env.inbound_token env.outbound_token (
          link_behind env.retrying (
            connect env.visit env.connect_token
              (record { is_connected = false; handlers = []; requests = [] })))))
  unfolding connect
  logged-Ends =
      subst
        (λ b.
          Ends IsAnswered (Fault env)
            (with_state "canonlog start" (start_log env.inbound_token env.outbound_token b)))
        (sym (link_behind-connect env.visit env.retrying env.connect_token visits))
        (start_log-Ends (Fault env) (is_up env.retrying env.connect_token) env.inbound_token
          env.outbound_token inbound_fails outbound_fails)

  -- Over a table whose ids fit in the column and are not shared, where a visit of a map meets each
  -- of its entries: ocpp-core starts ready to serve, whatever Connect reports, and then the
  -- database opened and migrated, the counter was read, and both subscriptions succeeded where
  -- IsConnected reports a link; or it ends by an error that names its cause, which is the failure
  -- of one of these.
  pub boot-IsReady :
      (rows : List Transaction) (events : List RuntimeEvent)
      → All (λ row. IsBelow integer_limit row.numeric_id) rows
      → AllPairs IdsDiffer rows
      → Ends (IsReady env rows) (Fault env) (boot env rows events)
  unfolding boot new_paho_broker
  boot-IsReady rows events fit distinct =
      let good = IsReady env rows in
      let bad = Fault env in
      Ends->>= (λ (_ : Unit {0}). env.sql_open (database_url env) ≡ none) good bad _ _ opened-Ends
        λ _ opened.
          Ends->>= (λ (_ : Unit {0}). (env.goose_dialect ≡ none) × (env.goose_up ≡ none)) good bad _
            _ migrated-Ends
            λ _ migrated.
              Ends->>= (IsCounted env.max_query rows) good bad _ _
                (init_counter-Ends bad env.max_query rows fit distinct query_fails)
                λ counted (bounded, counts, queried).
                  Ends->>= IsAnswered good bad _ _ logged-Ends λ logging (logs, asked, heard, told).
                    record {
                      counts = counts;
                      counted = bounded;
                      logging = logs;
                      asked = asked;
                      opened = opened;
                      migrated = migrated;
                      queried = queried;
                      heard = heard;
                      told = told;
                    }
