-- ===== src/Processor/CoreClient.antt =====
-- core_client.go: the calls of ocpp-core. `S` is the state of ocpp-core behind the connection.
pub mod Payload
use Prim.Native.String.{◌++◌}
use ocpp_simulator.Base.{
  ◌≡◌, refl, ℕ, String, ◌==◌, Bool, true, false, ◌||◌, List, [], ◌∷◌, leb, ltb, if◌then◌else◌,
}
use ocpp_simulator.Result.{
  Error, Result, ok, err, msg, wrap, core_unavailable_by, external, wrapping, ◌>>=◌,
}
use ocpp_simulator.Json.{Json, str, Bytes, json, junk, no_bytes, object, marshal_raw}
use ocpp_simulator.Json.Unmarshal.{unmarshal, read_struct, read_raw}

-- The interface that the handler uses.
pub record CoreClient (S : Type 0) : Type 0 where
  pub authorize : String → Bytes → S → Result Bytes × S
  pub start_transaction : String → Bytes → S → Result Bytes × S
  pub stop_transaction : String → Bytes → S → Result Bytes × S

-- What the HTTP client reports of a POST: no request could be built, no response came, its body
-- could not be read, or a status with a body.
pub data HttpAnswer : Type 0 where
  no_request no_response no_body : Error → HttpAnswer
  answered : ℕ → Bytes → HttpAnswer

-- The status of an answer that is no success is quoted in the error, with the body.
abbrev status_error : ℕ → Error
status_error status = core_unavailable_by (external "status")

unfoldable pub post_result : HttpAnswer → Result Bytes
post_result (no_request e) = err e
post_result (no_response e) = err (core_unavailable_by e)
post_result (no_body e) = err (core_unavailable_by (wrap "read body" e))
post_result (answered status body) =
    if ltb status 200 || leb 300 status then err (status_error status) else ok body

-- The body of a request: coreEnvelope.
envelope_body : String → Bytes → Result Json
envelope_body charge_point_id payload = wrapping "marshal envelope" do
  p ← marshal_raw payload
  ok (object (("chargePointId", str charge_point_id) ∷ ("payload", p) ∷ []))

-- HTTPCoreClient, over a transport that posts a body to a URL.
module _ {S : Type 0} (transport : String → Json → S → HttpAnswer × S) (base_url : String) where
  sent : String → Result Json → S → Result Bytes × S
  unfolding post_result
  sent path (err e) s = (err e, s)
  sent path (ok body) s =
      let (answer, s') = transport (base_url ++ path) body s in (post_result answer, s')

  unfoldable pub do_post : String → String → Bytes → S → Result Bytes × S
  unfolding sent envelope_body
  do_post path charge_point_id payload s = sent path (envelope_body charge_point_id payload) s

  -- A payload that is JSON is posted in its envelope.
  pub do_post-json :
      (path charge_point_id : String) (p : Json) (s : S)
      → do_post path charge_point_id (json p) s ≡ (
        post_result
            (transport
              (base_url ++ path)
              (object (("chargePointId", str charge_point_id) ∷ ("payload", p) ∷ []))
              s).0,
        (transport
            (base_url ++ path)
            (object (("chargePointId", str charge_point_id) ∷ ("payload", p) ∷ []))
            s).1,
      )
  unfolding do_post
  do_post-json path charge_point_id p s = refl

  unfoldable pub http_core_client : CoreClient S
  unfolding do_post
  http_core_client = record {
    authorize = do_post "/internal/transactions/authorize";
    start_transaction = do_post "/internal/transactions/start";
    stop_transaction = do_post "/internal/transactions/stop";
  }

abbrev is_empty : Bytes → Bool
is_empty (json j) = false
is_empty (junk s) = s == ""

abbrev envelope_payload : Bytes → Result Bytes
envelope_payload body = unmarshal (read_struct (("payload", read_raw) ∷ [])) body no_bytes

payload_or_error : Result Bytes → Result Bytes
payload_or_error (err e) = err (msg "core response is not a coreEnvelope")
payload_or_error (ok p) = if is_empty p then err (msg "core response has empty payload") else ok p

-- corePayload
unfoldable pub core_payload : Bytes → Result Bytes
unfolding payload_or_error read_struct
core_payload body = payload_or_error (envelope_payload body)
