-- ===== src/Gateway/WebSocket.antt =====
-- ws.go, WSHandler: a request for `/ws/{id}`, from the upgrade to the end of the session. The
-- outbound loop runs beside it (Outbound).
pub mod Ended
mod Tests
use ocpp_simulator.Base.{
  ℕ, suc, ◌≡◌, refl, sym, ap, subst, ◌∙◌, ◌⊎◌, inl, inr, ◌<◌, ◌≢◌, arith, String, ◌==◌, eq_iff,
  eq_refl, Bool, true, false, List, [], ◌∷◌, ◌++◌, Option, none, some, eqb, if◌then◌else◌, ◌||◌,
  Bool-cases, Option-cases,
}
use ocpp_simulator.Base.Assoc.{lookup, insert, remove, lookup-remove, lookup-insert}
use ocpp_simulator.Result.{Error, Result, ok, err, no_such_charge_point}
use ocpp_simulator.Result.Laws.{Result-cases}
use ocpp_simulator.Json.{Bytes}
use ocpp_simulator.Topic.{out_topic, extract_charge_point_id}
use ocpp_simulator.Gateway.{
  Client, Connection, Gateway, Read, text_frame, other_frame, read_failed, connect, disconnect,
  pump_inbound, publish_inbound,
}

-- How the handler ends: with status 400, after a failed upgrade, with a close frame 1011 that
-- carries the error of Connect, or after a session of a connection.
pub data Outcome : Type 0 where
  missing_id upgrade_failed : Outcome
  connect_failed : Error → Outcome
  session_ended : ℕ → Outcome

module _ (client : Client) where
  -- Behind Connect: the inbound loop, up to the read that fails, and the deferred Disconnect
  unfoldable pub run_session : String → List (Read × Bool) → Result ℕ × Gateway → Outcome × Gateway
  unfolding pump_inbound disconnect
  run_session id reads (err e, g) = (connect_failed e, g)
  run_session id reads (ok r, g) = (
    session_ended r,
    disconnect client id (pump_inbound client id r (reads ++ (read_failed, false) ∷ []) g),
  )

  unfoldable pub upgraded : String → Option Error → List (Read × Bool) → Gateway → Outcome × Gateway
  unfolding run_session connect
  upgraded id (some e) reads g = (upgrade_failed, g)
  upgraded id none reads g = run_session id reads (connect client id g)

  -- WSHandler, for a path, what Upgrade reports, and what the socket is read to give
  unfoldable pub ws_handler :
      String → Option Error → List (Read × Bool) → Gateway → Outcome × Gateway
  unfolding upgraded extract_charge_point_id
  ws_handler path upgrade reads g =
      let id = extract_charge_point_id path in
      if id == "" then (missing_id, g) else upgraded id upgrade reads g
