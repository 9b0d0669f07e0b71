-- ===== src/Gateway/Sessions.antt =====
-- Sessions of apps/ocpp-gateway/internal/gateway: the end of a session, and a charge point that
-- connects again while its old session is registered.
mod Tests
use ocpp_simulator.Base.{
  ℕ, suc, ◌≡◌, ◌⊎◌, refl, sym, ap, subst, ◌<◌, arith, String, ◌==◌, eq_refl, Bool, true, false,
  List, [], ◌∷◌, ◌++◌, Option, none, some, eqb, if◌then◌else◌, inl, inr, Bool-cases, Option-cases,
}
use ocpp_simulator.Base.Assoc.{Assoc, lookup, insert, remove, lookup-remove, lookup-insert}
use ocpp_simulator.Result.{Error, Result, ok, err, no_such_charge_point}
use ocpp_simulator.Result.Laws.{ok_inj}
use ocpp_simulator.Json.{Bytes}
use ocpp_simulator.Topic.{out_topic}
use ocpp_simulator.Gateway.{
  Client, ClientCall, subscribed, Connection, Gateway, write_heap, call_client, subscribe,
  unsubscribe_once, close_once, close_existing, register_connection, connect_subscribed, connect,
  disconnect, publish_inbound, publish_registered,
}

module _ (client : Client) where
  call_client-conns : (c : ClientCall) (g : Gateway) → (call_client client c g).conns ≡ g.conns
  unfolding call_client
  call_client-conns c g = ground arith

  pub close_once-conns : (r : ℕ) (g : Gateway) → (close_once client r g).conns ≡ g.conns
  unfolding close_once unsubscribe_once call_client
  close_once-conns r g = ground arith

  pub close_existing-conns :
      (o : Option ℕ) (g : Gateway) → (close_existing client o g).conns ≡ g.conns
  unfolding close_existing
  close_existing-conns none g = refl
  close_existing-conns (some r) g = close_once-conns r g

  disconnect-conns :
      (id : String) (g : Gateway) → (disconnect client id g).conns ≡ remove id g.conns
  unfolding disconnect
  disconnect-conns id g =
      close_existing-conns (lookup id g.conns) (record g { conns = remove id g.conns })

  pub lookup-disconnect :
      (id : String) (g : Gateway) → lookup id (disconnect client id g).conns ≡ none
  lookup-disconnect id g = rw (disconnect-conns id g, lookup-remove id id g.conns, eq_refl id) refl

  -- After the Disconnect of a charge point, PublishInbound answers ErrNoSuchChargePoint and changes
  -- nothing.
  pub publish_inbound-disconnect :
      (id : String) (payload : Bytes) (g : Gateway)
      → publish_inbound client id payload (disconnect client id g)
        ≡ (some no_such_charge_point, disconnect client id g)
  unfolding publish_inbound publish_registered
  publish_inbound-disconnect id payload g = rw (lookup-disconnect id g) refl

remove-remove : (k : String) (m : Assoc ℕ) → remove k (remove k m) ≡ remove k m
unfolding remove
remove-remove k [] = refl
remove-remove k ((j, v) ∷ m) = ground (arith, remove-remove k m)

module _ (client : Client) where
  disconnect-absent :
      (id : String) (g : Gateway)
      → lookup id g.conns ≡ none
      → remove id g.conns ≡ g.conns
      → disconnect client id g ≡ g
  unfolding disconnect close_existing
  disconnect-absent id g absent same = rw (absent, same) refl

  -- A second Disconnect of a charge point changes nothing.
  pub disconnect-disconnect :
      (id : String) (g : Gateway)
      → disconnect client id (disconnect client id g) ≡ disconnect client id g
  disconnect-disconnect id g =
      disconnect-absent id (disconnect client id g) (lookup-disconnect client id g)
        (rw (disconnect-conns client id g) (remove-remove id g.conns))

  -- Subscribe fails, or it has put the handler into the table, over an older one of the topic.
  pub subscribe-cases :
      (topic id : String) (g : Gateway)
      → ((e : Error) × (g' : Gateway) × (subscribe client topic id g ≡ (err e, g')))
        ⊎ ((calls : List ClientCall) × (subscribe client topic id g
              ≡ (ok topic, record g { handlers = insert topic id g.handlers; calls = calls })))
  unfolding subscribe call_client
  subscribe-cases topic id g = elim (Bool-cases client.is_connected) [
    | inr off ↦ inr (g.calls, rw off refl)
    | inl on ↦ elim (Option-cases (client.subscribe_answer topic)) [
      | inr (e, refused) ↦ inl (
        e,
        call_client client (subscribed topic) (record g { handlers = insert topic id g.handlers }),
        rw (on, refused) refl,
      )
      | inl taken ↦ inr (g.calls ++ (subscribed topic ∷ []), rw (on, taken) refl)
    ]
  ]

  pub close_once-handlers :
      (r : ℕ) (g : Gateway)
      → (g.heap r).closed ≡ false
      → (g.heap r).unsubscribe_done ≡ false
      → (close_once client r g).handlers ≡ remove (g.heap r).unsubscribe g.handlers
  unfolding close_once unsubscribe_once
  close_once-handlers r g opened held = rw (opened, held) refl

  register_connection-handlers :
      (id : String) (new old : ℕ) (g : Gateway)
      → (g.heap new).charge_point_id ≡ id
      → lookup id g.conns ≡ some old
      → (g.heap old).closed ≡ false
      → (g.heap old).unsubscribe_done ≡ false
      → (register_connection client new g).handlers ≡ remove (g.heap old).unsubscribe g.handlers
  unfolding register_connection close_existing
  register_connection-handlers id new old g own registered opened held =
      rw (own, registered)
        (close_once-handlers old (record g { conns = insert id new g.conns }) opened held)

pub lookup-removed : (j k : String) (m : Assoc String) → j ≡ k → lookup k (remove j m) ≡ none
lookup-removed j k m same = rw (lookup-remove j k m, same, eq_refl k) refl

lookup-inserted {ℓ} :
    {V : Type ℓ} (k : String) (v : V) (m : Assoc V) → lookup k (insert k v m) ≡ some v
lookup-inserted k v m = rw (lookup-insert k k v m, eq_refl k) refl

pub write_heap-same : (r : ℕ) (c : Connection) (heap : ℕ → Connection) → write_heap r c heap r ≡ c
write_heap-same r c heap = ground arith

write_heap-below :
    (r old : ℕ) (c : Connection) (heap : ℕ → Connection)
    → old < r
    → write_heap r c heap old ≡ heap old
write_heap-below r old c heap below = ground arith

-- A connection that is registered for `id` and in use.
pub record IsActive (g : Gateway) (id : String) (r : ℕ) : Type 0 where
  pub registered : lookup id g.conns ≡ some r
  pub allocated : r < g.next
  pub subscribed : (g.heap r).unsubscribe ≡ out_topic id
  pub held : (g.heap r).unsubscribe_done ≡ false
  pub opened : (g.heap r).closed ≡ false

module _ (client : Client) where
  -- When a charge point connects again while its session is active, and Connect answers no error,
  -- the broker's table has no handler of its out topic.
  pub connect-again :
      (id : String) (g : Gateway) (r n : ℕ)
      → IsActive g id r
      → (connect client id g).0 ≡ ok n
      → lookup (out_topic id) (connect client id g).1.handlers ≡ none
  unfolding connect connect_subscribed register_connection close_existing
  connect-again id g r n active done = elim (subscribe-cases client (out_topic id) id g) [
    | inl (e, g', refused) ↦
        let failed : err _ ≡ ok n =
          subst (λ o. (connect_subscribed client id o).0 ≡ ok n) refused done in
        cc
    | inr (calls, taken) ↦
        let c : Connection = record {
          charge_point_id = id;
          unsubscribe = out_topic id;
          unsubscribe_done = false;
          outbound = [];
          closed = false;
        } in
        let old = write_heap-below g.next r c g.heap active.allocated in
        let g₁ : Gateway = record g {
          handlers = insert (out_topic id) id g.handlers;
          calls = calls;
          next = suc g.next;
          heap = write_heap g.next c g.heap;
        } in
        let handlers =
          register_connection-handlers client id g.next r g₁
            (rw (write_heap-same g.next c g.heap) refl) active.registered (rw old active.opened)
            (rw old active.held) in
        rw (taken, handlers)
          (lookup-removed (g₁.heap r).unsubscribe (out_topic id) g₁.handlers
            (rw old active.subscribed))
  ]

  register_connection-first :
      (id : String) (new : ℕ) (g : Gateway)
      → (g.heap new).charge_point_id ≡ id
      → lookup id g.conns ≡ none
      → register_connection client new g ≡ record g { conns = insert id new g.conns }
  unfolding register_connection close_existing
  register_connection-first id new g own absent = rw (own, absent) refl

  -- A charge point without a session that connects has an active session, under the next number,
  -- the broker's table has its handler, and its channel is empty.
  pub connect-IsActive :
      (id : String) (g : Gateway) (n : ℕ)
      → lookup id g.conns ≡ none
      → (connect client id g).0 ≡ ok n
      → (n ≡ g.next)
        × IsActive (connect client id g).1 id n
        × (lookup (out_topic id) (connect client id g).1.handlers ≡ some id)
        × (((connect client id g).1.heap n).outbound ≡ [])
  unfolding connect connect_subscribed
  connect-IsActive id g n absent done = elim (subscribe-cases client (out_topic id) id g) [
    | inl (e, g', refused) ↦
        let failed : err _ ≡ ok n =
          subst (λ o. (connect_subscribed client id o).0 ≡ ok n) refused done in
        cc
    | inr (calls, taken) ↦
        let c : Connection = record {
          charge_point_id = id;
          unsubscribe = out_topic id;
          unsubscribe_done = false;
          outbound = [];
          closed = false;
        } in
        let g₁ : Gateway = record g {
          handlers = insert (out_topic id) id g.handlers;
          calls = calls;
          next = suc g.next;
          heap = write_heap g.next c g.heap;
        } in
        let same = write_heap-same g.next c g.heap in
        let first = register_connection-first id g.next g₁ (rw same refl) absent in
        let number : n ≡ g.next =
          sym (ok_inj (subst (λ o. (connect_subscribed client id o).0 ≡ ok n) taken done)) in
        rw (number, taken, first)
          (
            refl,
            record {
              registered = lookup-inserted id g.next g.conns;
              allocated = omega arith;
              subscribed = ap (λ x. x.unsubscribe) same;
              held = ap (λ x. x.unsubscribe_done) same;
              opened = ap (λ x. x.closed) same;
            },
            lookup-inserted (out_topic id) id g.handlers,
            ap (λ x. x.outbound) same,
          )
  ]
