-- ===== src/Gateway/Forwarding.antt =====
-- The frames that a charge point sends (ws.go, pumpInbound): what reaches the broker.
use ocpp_simulator.Base.{
  ℕ, ◌≡◌, refl, ap, String, Bool, true, false, List, [], ◌∷◌, ◌++◌, none, some,
}
use ocpp_simulator.Base.Assoc.{lookup}
use ocpp_simulator.Json.{Bytes}
use ocpp_simulator.Topic.{in_topic}
use ocpp_simulator.Gateway.{
  Client, ClientCall, published, Gateway, Read, text_frame, publish_inbound, publish_registered,
  call_client, pump_inbound,
}

-- A sequence of text frames in a context that is never done.
abbrev pub text_reads : List Bytes → List (Read × Bool)
text_reads [] = []
text_reads (p ∷ ps) = (text_frame p, false) ∷ text_reads ps

-- The calls of the client with one publication on the topic for each frame behind them.
abbrev pub forwarded : String → List Bytes → List ClientCall → List ClientCall
forwarded topic [] calls = calls
forwarded topic (p ∷ ps) calls = forwarded topic ps (calls ++ (published topic p ∷ []))

module _ (client : Client) (id : String) (r k : ℕ) where
  publish_inbound-accepted :
      (p : Bytes) (g : Gateway)
      → client.is_connected ≡ true
      → client.publish_answer (in_topic id) p ≡ none
      → lookup id g.conns ≡ some k
      → publish_inbound client id p g
        ≡ (none, record g { calls = g.calls ++ (published (in_topic id) p ∷ []) })
  unfolding publish_inbound publish_registered call_client
  publish_inbound-accepted p g on accepts registered = rw (registered, on, accepts) refl

  -- While the charge point is registered, its connection is open and a connected broker accepts,
  -- each text frame is published once, unchanged, on the in topic, in the order of the frames, and
  -- nothing else changes.
  pub pump_inbound-forwarded :
      (ps : List Bytes) (g : Gateway)
      → client.is_connected ≡ true
      → ((p : Bytes) → client.publish_answer (in_topic id) p ≡ none)
      → lookup id g.conns ≡ some k
      → (g.heap r).closed ≡ false
      → pump_inbound client id r (text_reads ps) g
        ≡ record g { calls = forwarded (in_topic id) ps g.calls }
  unfolding pump_inbound
  pump_inbound-forwarded [] g on accepts registered opened = refl
  pump_inbound-forwarded (p ∷ ps) g on accepts registered opened =
      let sent = publish_inbound-accepted p g on (accepts p) registered in
      rw (pump_inbound, ap (λ o. o.0) sent, ap (λ o. o.1) sent, opened)
        (pump_inbound-forwarded ps
          (record g { calls = g.calls ++ (published (in_topic id) p ∷ []) }) on accepts registered
          opened)
