-- ===== src/System/Client.antt =====
-- The processor's HTTP client (apps/message-processor/internal/processor/core_client.go) on the
-- routes of ocpp-core (apps/ocpp-core/internal/api/server.go), over a network that may lose either way.
use Prim.Native.String.{◌++◌}
use text.Mathlib.TextLemmas.{nil-append, cons-append}
use ocpp_simulator.Base.{ℕ, ◌≤◌, ap, ◌∙◌, String, ◌≡◌, refl, some, arith, ◌⊎◌, inl, inr}
use ocpp_simulator.Result.{Error, Result, err, core_unavailable_by, external, wrap}
use ocpp_simulator.Message.{Message, call}
use ocpp_simulator.Codec.Shape.{WellFormed, is_call, is_result, is_error}
use ocpp_simulator.Core.Api.Decisions.{IsRefusal}
use ocpp_simulator.Json.{Json, Bytes, json}
use ocpp_simulator.Schemas.{SchemaLibrary}
use ocpp_simulator.Topic.{cut_prefix}
use ocpp_simulator.Processor.CoreClient.{
  CoreClient, post_result, do_post, do_post-json, http_core_client,
}
use ocpp_simulator.Core.Api.{
  Server, Backend, Network, answers, unreachable, loses, cuts, Response, write_error, envelope_json,
  handle_authorize, handle_start_transaction, handle_stop_transaction,
}
use ocpp_simulator.Core.Api.Routes.{serve, post_to_core, over_network}

cut_prefix-append : (p s : String) → cut_prefix p (p ++ s) ≡ some s
unfolding cut_prefix
cut_prefix-append String.[] s = rw nil-append refl
cut_prefix-append (String.◌∷◌ c p) s = rw cons-append (ground (arith, cut_prefix-append p s))

-- What the processor makes of what it sees of a handler's answer.
abbrev pub asked : Network → Response × Server → Server → Result Bytes × Server
asked network answer s = let (seen, s') = over_network network answer s in (post_result seen, s')

-- The answer to a request that was handled does not reach the client.
pub data IsLost : Network → Type 0 where
  no_answer : (e : Error) → IsLost (loses e)
  no_rest : (e : Error) → IsLost (cuts e)

-- A request, handled or not: its answer arrives; it fails, and nothing has changed; or its answer is
-- lost, and it fails for the processor over the state that the handler leaves.
pub asked-cases :
    (network : Network) (answer : Response × Server) (s : Server)
    → (network ≡ answers)
      ⊎ ((e : Error) × (asked network answer s ≡ (err e, s)))
      ⊎ (IsLost network × (e : Error) × (asked network answer s ≡ (err e, answer.1)))
unfolding over_network post_result
asked-cases answers answer s = inl refl
asked-cases (unreachable e) answer s = inr (inl (core_unavailable_by e, refl))
asked-cases (loses e) answer s = inr (inr (no_answer e, core_unavailable_by e, refl))
asked-cases (cuts e) answer s =
    inr (inr (no_rest e, core_unavailable_by (wrap "read body" e), refl))

-- Nothing else can change than what the handler changes.
pub asked-kept :
    (network : Network) (answer : Response × Server) (s : Server)
    → ((asked network answer s).1 ≡ s) ⊎ ((asked network answer s).1 ≡ answer.1)
unfolding over_network
asked-kept answers answer s = inr refl
asked-kept (unreachable e) answer s = inl refl
asked-kept (loses e) answer s = inr refl
asked-kept (cuts e) answer s = inr refl

-- A refusal is an error for the processor, and has changed nothing.
pub asked_refused :
    (network : Network) (s : Server) (answer : Response × Server)
    → IsRefusal s answer
    → (e : Error) × (asked network answer s ≡ (err e, s))
unfolding post_result over_network
asked_refused answers s answer (status, message, high, refused) = (
  core_unavailable_by (external "status"),
  ap (λ a. asked answers a s) refused ∙ status_refused status message high,
)
  where
    status_refused :
        (status : ℕ) (message : String)
        → 300 ≤ status
        → asked answers (write_error status message, s) s
          ≡ (err (core_unavailable_by (external "status")), s)
    status_refused status message high = ground arith
asked_refused (unreachable e) s answer _ = (core_unavailable_by e, refl)
asked_refused (loses e) s answer (status, message, high, refused) =
    (core_unavailable_by e, ap (λ a. asked (loses e) a s) refused)
asked_refused (cuts e) s answer (status, message, high, refused) =
    (core_unavailable_by (wrap "read body" e), ap (λ a. asked (cuts e) a s) refused)

-- The payload of a CALL is JSON.
pub call-payload :
    (m : Message) → WellFormed m → m.message_type_id ≡ call → (p : Json) × (m.payload ≡ json p)
call-payload _ (is_call u a p) _ = (p, refl)
call-payload _ (is_result u p) _ = (p, refl)
call-payload _ (is_error u c d x) e = cc

module _ (library : SchemaLibrary) (env : Backend) (unrouted : String → Response)
    (base_url : String) where
  unfoldable pub core_client : CoreClient Server
  core_client = http_core_client (post_to_core library env unrouted base_url) base_url

  post_to_core-path :
      (path : String) (body : Json) (s : Server)
      → post_to_core library env unrouted base_url (base_url ++ path) body s
        ≡ over_network env.network (serve library env unrouted ("POST " ++ path) (json body) s) s
  unfolding post_to_core
  post_to_core-path path body s = rw (post_to_core, cut_prefix-append base_url path) refl

  reaches :
      (path id : String) (p : Json) (s : Server)
      → do_post (post_to_core library env unrouted base_url) base_url path id (json p) s
        ≡ asked env.network
            (serve library env unrouted ("POST " ++ path) (json (envelope_json id p)) s)
            s
  reaches path id p s =
      rw
        (
          do_post-json (post_to_core library env unrouted base_url) base_url path id p s,
          post_to_core-path path (envelope_json id p) s,
        )
        refl

  -- Each method reaches its handler, with the payload in an envelope.
  pub core_client-authorize :
      (id : String) (p : Json) (s : Server)
      → core_client.authorize id (json p) s
        ≡ asked env.network (handle_authorize env (json (envelope_json id p)) s) s
  unfolding core_client http_core_client serve
  core_client-authorize id p s = reaches "/internal/transactions/authorize" id p s

  pub core_client-start :
      (id : String) (p : Json) (s : Server)
      → core_client.start_transaction id (json p) s
        ≡ asked env.network (handle_start_transaction env (json (envelope_json id p)) s) s
  unfolding core_client http_core_client serve
  core_client-start id p s = reaches "/internal/transactions/start" id p s

  pub core_client-stop :
      (id : String) (p : Json) (s : Server)
      → core_client.stop_transaction id (json p) s
        ≡ asked env.network (handle_stop_transaction env (json (envelope_json id p)) s) s
  unfolding core_client http_core_client serve
  core_client-stop id p s = reaches "/internal/transactions/stop" id p s
