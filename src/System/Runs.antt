-- ===== src/System/Runs.antt =====
-- Any number of runs of ocpp-core over one database: each starts by its main function over the rows
-- that the last one left, and serves the deliveries to the processor until it ends.
mod Tests
use ocpp_simulator.Base.{◌≡◌, subst, ◌⊎◌, String, List, [], ◌∷◌, ◌++◌, some}
use ocpp_simulator.Result.{Error, Result, ok, err}
use ocpp_simulator.Schemas.{SchemaLibrary}
use ocpp_simulator.Mqtt.Routes.{IsVisit}
use ocpp_simulator.Processor.Handler.{Handler, World}
use ocpp_simulator.Core.Store.{Transaction}
use ocpp_simulator.Core.Events.{RuntimeEvent}
use ocpp_simulator.Core.Transactions.{Service}
use ocpp_simulator.Core.Transactions.Counter.{IdsDiffer}
use ocpp_simulator.Core.Transactions.Restarts.{Operation, restarts, apply}
use ocpp_simulator.Core.Api.{Server, Backend, Response}
use ocpp_simulator.Boot.Ends.{Ends}
use ocpp_simulator.Boot.CoreService.{Surroundings, Process, boot}
use ocpp_simulator.Boot.CoreService.Started.{above}
use ocpp_simulator.System.Client.{core_client}
use ocpp_simulator.System.History.{Delivery, Requested, apply_all, deliver_all}

-- A run: what the start meets, and what is delivered behind it.
pub record Run : Type 0 where
  pub surroundings : Surroundings
  pub visits : IsVisit surroundings.visit
  pub deliveries : List Delivery

-- What the database holds.
abbrev pub Stored : Type 0
Stored = List Transaction × List RuntimeEvent

-- The operations of runs: none of a start that fails; else a restart, and then what the deliveries
-- ask for.
pub data RunsRequested : List Run → List Operation → Type 0 where
  no_more : RunsRequested [] []
  failed :
      {rs : List Run} {ops : List Operation} (r : Run)
      → RunsRequested rs ops
      → RunsRequested (r ∷ rs) ops
  served :
      {rs : List Run} {ops : List Operation} (r : Run) (asked : List Operation)
      → Requested r.deliveries asked
      → RunsRequested rs ops
      → RunsRequested (r ∷ rs) (restarts "" "" ∷ (asked ++ ops))

module _ (library : SchemaLibrary) (unrouted : String → Response) (base_url : String)
    (h : Backend → Handler Server)
    (wired : (env : Backend)
      → (h env).core ≡ some (core_client library env unrouted base_url)) where
  unfoldable pub serve_run : List Delivery → Result Process → Stored → Stored
  unfolding deliver_all
  serve_run ds (err e) stored = stored
  serve_run ds (ok p) stored =
      let w =
        deliver_all library unrouted base_url h wired ds
          (record { core_state = p.server; events = [] }) in
      (w.core_state.transactions.rows, w.core_state.events)

  unfoldable pub serve_runs : List Run → Stored → Stored
  unfolding serve_run boot
  serve_runs [] stored = stored
  serve_runs (r ∷ rs) stored =
      serve_runs rs (serve_run r.deliveries (boot r.surroundings stored.0 stored.1) stored)

  -- A run, as operations on a service over the same rows.
  Serves : Run → Service → Stored → Type 0
  Serves r t stored =
      (stored.0 ≡ t.rows)
      ⊎ ((asked : List Operation) × Requested r.deliveries asked
          × (stored.0 ≡ (apply_all asked (apply (restarts "" "") t)).rows))
