-- ===== src/Core/Api/Routes.antt =====
-- api/server.go: the routes, and the path from the message processor's HTTP client to a handler.
-- Which pattern net/http's ServeMux picks is modelled for these patterns, which hold no wildcard:
-- the one with the method and the path. Its answer to any other request is an argument.
use Prim.Native.String.{◌++◌}
use ocpp_simulator.Base.{String, [], ◌∷◌, none, some}
use ocpp_simulator.Base.Assoc.{Assoc, lookup}
use ocpp_simulator.Result.{external}
use ocpp_simulator.Json.{Json, str, Bytes, json, object}
use ocpp_simulator.Schemas.{SchemaLibrary}
use ocpp_simulator.Topic.{cut_prefix}
use ocpp_simulator.Processor.CoreClient.{HttpAnswer, answered, no_response, no_body}
use ocpp_simulator.Core.Api.{
  Server, Backend, Network, answers, unreachable, loses, cuts, Response, write_json,
  handle_authorize, handle_start_transaction, handle_stop_transaction,
}
use ocpp_simulator.Core.Api.Commands.{
  handle_remote_start, handle_remote_stop, handle_reset, handle_unlock_connector,
  handle_change_configuration, handle_get_configuration, handle_trigger_message,
  handle_change_availability,
}

-- What the client sees of a request that the server would handle, and the state behind it. A lost
-- answer leaves what the handler did.
unfoldable pub over_network : Network → Response × Server → Server → HttpAnswer × Server
over_network answers (response, s') s = (answered response.status (json response.body), s')
over_network (unreachable e) (response, s') s = (no_response e, s)
over_network (loses e) (response, s') s = (no_response e, s')
over_network (cuts e) (response, s') s = (no_body e, s')

unfoldable pub handle_health : Bytes → Server → Response × Server
handle_health body s = (write_json 200 (object (("status", str "ok") ∷ [])), s)

module _ (library : SchemaLibrary) (env : Backend) where
  abbrev pub routes : Assoc (Bytes → Server → Response × Server)
  routes =
      ("GET /health", handle_health)
      ∷ ("POST /internal/transactions/authorize", handle_authorize env)
      ∷ ("POST /internal/transactions/start", handle_start_transaction env)
      ∷ ("POST /internal/transactions/stop", handle_stop_transaction env)
      ∷ ("POST /internal/csms/remote-start", handle_remote_start library env)
      ∷ ("POST /internal/csms/remote-stop", handle_remote_stop library env)
      ∷ ("POST /internal/csms/reset", handle_reset library env)
      ∷ ("POST /internal/csms/unlock-connector", handle_unlock_connector library env)
      ∷ ("POST /internal/csms/change-configuration", handle_change_configuration library env)
      ∷ ("POST /internal/csms/get-configuration", handle_get_configuration library env)
      ∷ ("POST /internal/csms/trigger-message", handle_trigger_message library env)
      ∷ ("POST /internal/csms/change-availability", handle_change_availability library env)
      ∷ []

module _ (library : SchemaLibrary) (env : Backend) (unrouted : String → Response) where
  unfoldable pub serve : String → Bytes → Server → Response × Server
  unfolding lookup
  serve request body s = elim (lookup request (routes library env)) [
    | some handler ↦ handler body s
    | none ↦ (unrouted request, s)
  ]

  -- What a POST of the processor's HTTP client meets, where the server listens at the base URL.
  unfoldable pub post_to_core : String → String → Json → Server → HttpAnswer × Server
  unfolding serve cut_prefix over_network
  post_to_core base_url url body s = elim (cut_prefix base_url url) [
    | some path ↦ over_network env.network (serve ("POST " ++ path) (json body) s) s
    | none ↦ (no_response (external "connection refused"), s)
  ]
