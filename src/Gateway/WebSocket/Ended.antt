-- ===== src/Gateway/WebSocket/Ended.antt =====
-- What a request for `/ws/{id}` leaves behind.
use ocpp_simulator.Base.{
  ℕ, suc, ◌≡◌, refl, sym, ap, subst, ◌∙◌, inl, inr, ◌<◌, arith, String, ◌==◌, eq_iff, eq_refl, Bool,
  true, false, List, [], ◌∷◌, ◌++◌, Option, none, some, if◌then◌else◌, ◌||◌, Bool-cases,
  Option-cases,
}
use ocpp_simulator.Base.Assoc.{lookup, insert, remove, lookup-insert}
use ocpp_simulator.Result.{Error, Result, ok, err}
use ocpp_simulator.Result.Laws.{Result-cases, ok_inj}
use ocpp_simulator.Json.{Bytes}
use ocpp_simulator.Topic.{in_topic, out_topic, extract_charge_point_id}
use ocpp_simulator.Gateway.{
  Client, ClientCall, published, Connection, Gateway, Read, text_frame, other_frame, read_failed,
  write_heap, call_client, close_existing, register_connection, connect_subscribed, connect,
  subscribe, disconnect, pump_inbound, publish_inbound, publish_registered,
}
use ocpp_simulator.Gateway.Sessions.{
  IsActive, subscribe-cases, close_once-conns, lookup-disconnect, close_once-handlers,
  write_heap-same, lookup-removed,
}
use ocpp_simulator.Gateway.Single.{close_once-other, close_once-closed, close_once-next}
use ocpp_simulator.Gateway.WebSocket.{
  Outcome, missing_id, upgrade_failed, connect_failed, session_ended, run_session, upgraded,
  ws_handler,
}

-- Registered connections have been allocated.
abbrev pub IsAllocated : Gateway → Type 0
IsAllocated g = (id : String) (r : ℕ) → lookup id g.conns ≡ some r → r < g.next

-- The end of a session: no connection is registered, that of the session is closed, and no message
-- on the out topic is handled.
pub record IsOver (id : String) (r : ℕ) (g : Gateway) : Type 0 where
  pub unregistered : lookup id g.conns ≡ none
  pub closed : (g.heap r).closed ≡ true
  pub unsubscribed : lookup (out_topic id) g.handlers ≡ none

module _ (client : Client) where
  close_existing-IsActive :
      (o : Option ℕ) (id : String) (n : ℕ) (g : Gateway)
      → IsActive g id n
      → ((old : ℕ) → o ≡ some old → old < n)
      → IsActive (close_existing client o g) id n
  unfolding close_existing
  close_existing-IsActive none id n g active older = active
  close_existing-IsActive (some old) id n g active older =
      let kept = close_once-other client old n g (let below = older old refl in ground arith) in
      record {
        registered = ap (lookup id) (close_once-conns client old g) ∙ active.registered;
        allocated = rw (close_once-next client old g) active.allocated;
        subscribed = ap (λ c. c.unsubscribe) kept ∙ active.subscribed;
        held = ap (λ c. c.unsubscribe_done) kept ∙ active.held;
        opened = ap (λ c. c.closed) kept ∙ active.opened;
      }

  register_connection-close_existing :
      (id : String) (r : ℕ) (g : Gateway)
      → (g.heap r).charge_point_id ≡ id
      → register_connection client r g
        ≡ close_existing client (lookup id g.conns) (record g { conns = insert id r g.conns })
  unfolding register_connection
  register_connection-close_existing id r g own =
      ap (λ k. close_existing client (lookup k g.conns) (record g { conns = insert k r g.conns }))
        own

  -- Connect, where it answers no error, leaves the charge point with an active session.
  connect-IsActive_always :
      (id : String) (n : ℕ) (g : Gateway)
      → IsAllocated g
      → (connect client id g).0 ≡ ok n
      → IsActive (connect client id g).1 id n
  unfolding connect connect_subscribed
  connect-IsActive_always id n g allocated done =
      elim (subscribe-cases client (out_topic id) id g) [
        | inl (e, g', refused) ↦
            let failed : err _ ≡ ok n =
              subst (λ o. (connect_subscribed client id o).0 ≡ ok n) refused done in
            cc
        | inr (calls, taken) ↦
            let number : g.next ≡ n =
              ok_inj (subst (λ o. (connect_subscribed client id o).0 ≡ ok n) taken done) in
            let c : Connection = record {
              charge_point_id = id;
              unsubscribe = out_topic id;
              unsubscribe_done = false;
              outbound = [];
              closed = false;
            } in
            let same = write_heap-same g.next c g.heap in
            let g₁ : Gateway = record g {
              handlers = insert (out_topic id) id g.handlers;
              calls = calls;
              next = suc g.next;
              heap = write_heap g.next c g.heap;
            } in
            let fresh : IsActive (record g₁ { conns = insert id g.next g.conns }) id g.next =
              record {
                registered = rw (lookup-insert, eq_refl id) refl;
                allocated = omega arith;
                subscribed = ap (λ x. x.unsubscribe) same;
                held = ap (λ x. x.unsubscribe_done) same;
                opened = ap (λ x. x.closed) same;
              } in
            subst (λ o. IsActive (connect_subscribed client id o).1 id n) (sym taken)
              (subst (λ k. IsActive k id n)
                (sym (
                  register_connection-close_existing id g.next g₁
                    (ap (λ x. x.charge_point_id) same)))
                (subst
                  (λ k.
                    IsActive
                      (close_existing client (lookup id g.conns)
                        (record g₁ { conns = insert id g.next g.conns }))
                      id k)
                  number
                  (close_existing-IsActive (lookup id g.conns) id g.next _ fresh
                    (λ old registered. allocated id old registered))))
      ]

  -- Nothing but the calls of the client differs.
  abbrev IsKept : Gateway → Gateway → Type 0
  IsKept g g' = (calls : List ClientCall) × (g' ≡ record g { calls = calls })

  publish_inbound-keeps :
      (id : String) (payload : Bytes) (g : Gateway)
      → IsKept g (publish_inbound client id payload g).1
  unfolding publish_inbound publish_registered call_client
  publish_inbound-keeps id payload g = elim (Option-cases (lookup id g.conns)) [
    | inl absent ↦ (g.calls, rw absent refl)
    | inr (r, registered) ↦ elim (Bool-cases client.is_connected) [
      | inl on ↦ (g.calls ++ (published (in_topic id) payload ∷ []), rw (registered, on) refl)
      | inr off ↦ (g.calls, rw (registered, off) refl)
    ]
  ]

  choice-keeps :
      (answer : Option Error) (stop : Bool) (g g' rest : Gateway)
      → IsKept g g'
      → IsKept g rest
      → IsKept g (elim answer [ some e ↦ g' | none ↦ if stop then g' else rest ])
  choice-keeps (some e) stop g g' rest here later = here
  choice-keeps none true g g' rest here later = here
  choice-keeps none false g g' rest here later = later

  pump_inbound-keeps :
      (id : String) (r : ℕ) (reads : List (Read × Bool)) (g : Gateway)
      → IsKept g (pump_inbound client id r reads g)
  unfolding pump_inbound
  pump_inbound-keeps id r [] g = (g.calls, refl)
  pump_inbound-keeps id r ((read_failed, done) ∷ reads) g = (g.calls, refl)
  pump_inbound-keeps id r ((other_frame payload, done) ∷ reads) g = (g.calls, refl)
  pump_inbound-keeps id r ((text_frame payload, done) ∷ reads) g =
      let (calls, kept) = publish_inbound-keeps id payload g in
      let (later, rest) = pump_inbound-keeps id r reads (record g { calls = calls }) in
      let g' = (publish_inbound client id payload g).1 in
      choice-keeps (publish_inbound client id payload g).0 (done || (g'.heap r).closed) g g'
        (pump_inbound client id r reads g') (calls, kept)
        (later, ap (pump_inbound client id r reads) kept ∙ rest)

  disconnect-IsOver :
      (id : String) (r : ℕ) (g : Gateway) → IsActive g id r → IsOver id r (disconnect client id g)
  unfolding disconnect close_existing
  disconnect-IsOver id r g active =
      let g₁ : Gateway = record g { conns = remove id g.conns } in
      record {
        unregistered = lookup-disconnect client id g;
        closed =
            ap (λ o. ((close_existing client o g₁).heap r).closed) active.registered
            ∙ close_once-closed client r g₁;
        unsubscribed =
            ap (λ o. lookup (out_topic id) (close_existing client o g₁).handlers) active.registered
            ∙ ap (lookup (out_topic id)) (close_once-handlers client r g₁ active.opened active.held)
            ∙ lookup-removed (g.heap r).unsubscribe (out_topic id) g.handlers active.subscribed;
      }

  IsKept-IsActive :
      (id : String) (r : ℕ) (g g' : Gateway) → IsKept g g' → IsActive g id r → IsActive g' id r
  IsKept-IsActive id r g g' (calls, kept) active =
      subst (λ k. IsActive k id r) (sym kept)
        (record {
          registered = active.registered;
          allocated = active.allocated;
          subscribed = active.subscribed;
          held = active.held;
          opened = active.opened;
        })

  -- What each way to end leaves of the gateway.
  abbrev pub Left : String → Gateway → Outcome × Gateway → Type 0
  Left id g (missing_id, g') = (id ≡ "") × (g' ≡ g)
  Left id g (upgrade_failed, g') = g' ≡ g
  Left id g (connect_failed e, g') = (g'.conns ≡ g.conns) × (g'.heap ≡ g.heap)
  Left id g (session_ended r, g') = IsOver id r g'

  subscribe-unregistered :
      (topic id : String) (g : Gateway)
      → ((subscribe client topic id g).1.conns ≡ g.conns)
        × ((subscribe client topic id g).1.heap ≡ g.heap)
  unfolding subscribe call_client
  subscribe-unregistered topic id g = elim (Bool-cases client.is_connected) [
    | inl on ↦ rw on (refl, refl)
    | inr off ↦ rw off (refl, refl)
  ]

  connect-refused :
      (id : String) (e : Error) (answer : Result String) (g g' : Gateway)
      → (g'.conns ≡ g.conns) × (g'.heap ≡ g.heap)
      → (connect_subscribed client id (answer, g')).0 ≡ err e
      → let after = (connect_subscribed client id (answer, g')).1 in
        (after.conns ≡ g.conns) × (after.heap ≡ g.heap)
  unfolding connect_subscribed
  connect-refused id e (err _) g g' same refused = same
  connect-refused id e (ok topic) g g' same refused = cc

  run_session-Left :
      (id : String) (reads : List (Read × Bool)) (g : Gateway)
      → IsAllocated g
      → Left id g (run_session client id reads (connect client id g))
  unfolding run_session connect
  run_session-Left id reads g allocated = elim (Result-cases (connect client id g).0) [
    | inl (e, refused) ↦
        let answer = subscribe client (out_topic id) id g in
        let same =
          connect-refused id e answer.0 g answer.1 (subscribe-unregistered (out_topic id) id g)
            refused in
        subst (λ a. Left id g (run_session client id reads (a, (connect client id g).1)))
          (sym refused) same
    | inr (r, done) ↦
        let active = connect-IsActive_always id r g allocated done in
        let kept =
          pump_inbound-keeps id r (reads ++ ((read_failed, false) ∷ [])) (connect client id g).1 in
        subst (λ a. Left id g (run_session client id reads (a, (connect client id g).1))) (sym done)
          (disconnect-IsOver id r _ (IsKept-IsActive id r (connect client id g).1 _ kept active))
  ]

  upgraded-Left :
      (id : String) (upgrade : Option Error) (reads : List (Read × Bool)) (g : Gateway)
      → IsAllocated g
      → Left id g (upgraded client id upgrade reads g)
  unfolding upgraded
  upgraded-Left id (some e) reads g allocated = refl
  upgraded-Left id none reads g allocated = run_session-Left id reads g allocated

  -- Whatever the path, the upgrade and the reads, where each registered connection has been
  -- allocated: a request without an id, and one whose upgrade fails, leave the gateway as it was;
  -- one whose Connect fails registers nothing; and behind a session its charge point has no
  -- connection, the one of the session is closed, and its out topic has no handler.
  pub ws_handler-Left :
      (path : String) (upgrade : Option Error) (reads : List (Read × Bool)) (g : Gateway)
      → IsAllocated g
      → Left (extract_charge_point_id path) g (ws_handler client path upgrade reads g)
  unfolding ws_handler upgraded run_session connect
  ws_handler-Left path upgrade reads g allocated =
      elim (Bool-cases (extract_charge_point_id path == "")) [
        | inl empty ↦
            subst
              (λ b. Left (extract_charge_point_id path) g (
                if b
                then (missing_id, g)
                else upgraded client (extract_charge_point_id path) upgrade reads g))
              (sym empty) ((eq_iff (extract_charge_point_id path) "").0 empty, refl)
        | inr named ↦
            subst
              (λ b. Left (extract_charge_point_id path) g (
                if b
                then (missing_id, g)
                else upgraded client (extract_charge_point_id path) upgrade reads g))
              (sym named) (upgraded-Left (extract_charge_point_id path) upgrade reads g allocated)
      ]
