-- ===== src/Gateway/Single.antt =====
-- One open connection for each charge point (registry.go), over any sequence of operations.
mod Tests
use ocpp_simulator.Base.{
  ℕ, suc, ◌≡◌, ◌⊎◌, refl, sym, ap, subst, ◌∙◌, ◌<◌, arith, String, ◌==◌, eq_iff, eq_refl, Bool,
  true, false, [], ◌++◌, Option, none, some, eqb, if◌then◌else◌, inl, inr, Bool-cases, Option-cases,
}
use ocpp_simulator.Base.Assoc.{Assoc, lookup, insert, remove, lookup-remove, lookup-insert}
use ocpp_simulator.Result.{Result, ok, err}
use ocpp_simulator.Json.{Bytes}
use ocpp_simulator.Topic.{out_topic}
use ocpp_simulator.Gateway.{
  Client, Connection, Gateway, write_heap, call_client, subscribe, unsubscribe_once, close_once,
  close_existing, register_connection, connect_subscribed, connect, disconnect, publish_inbound,
  publish_registered,
}
use ocpp_simulator.Gateway.Sessions.{close_existing-conns, write_heap-same}

-- A table that differs at one id: a connection registered in the old one is so in the new one, or
-- the old one held it for that id.
taken_over :
    (id : String) (at_id : Option ℕ) (conns : Assoc ℕ) (r : ℕ) (g : Gateway)
    → ((j : String) → lookup j conns ≡ (if id == j then at_id else lookup j g.conns))
    → lookup (g.heap r).charge_point_id g.conns ≡ some r
    → (lookup (g.heap r).charge_point_id conns ≡ some r) ⊎ (lookup id g.conns ≡ some r)
taken_over id at_id conns r g changed registered =
    let own = (g.heap r).charge_point_id in
    elim (Bool-cases (id == own)) [
      | inl same ↦ let here : id ≡ own = ground (arith, eq_iff id own) in inr (rw here registered)
      | inr other ↦ inl (rw (changed own, other) registered)
    ]

-- Each connection that is not closed is the one that the registry holds for its charge point.
abbrev pub IsSingle : Gateway → Type 0
IsSingle g =
    (r : ℕ)
    → r < g.next
    → (g.heap r).closed ≡ false
    → lookup (g.heap r).charge_point_id g.conns ≡ some r

lookup-inserted-as :
    (id own : String) (n r : ℕ) (conns : Assoc ℕ)
    → own ≡ id
    → n ≡ r
    → lookup own (insert id n conns) ≡ some r
lookup-inserted-as id own n r conns same last = rw (same, lookup-insert, eq_refl id, last) refl

eqb-true : (n m : ℕ) → eqb n m ≡ true → n ≡ m
eqb-true n m e = ground arith

write_heap-other :
    (r i : ℕ) (c : Connection) (heap : ℕ → Connection)
    → eqb i r ≡ false
    → write_heap r c heap i ≡ heap i
write_heap-other r i c heap other = rw other refl

module _ (client : Client) where
  unsubscribe_once-other :
      (r i : ℕ) (g : Gateway) → eqb i r ≡ false → (unsubscribe_once client r g).heap i ≡ g.heap i
  unfolding unsubscribe_once
  unsubscribe_once-other r i g other = ground (arith, other)

  pub close_once-other :
      (r i : ℕ) (g : Gateway) → eqb i r ≡ false → (close_once client r g).heap i ≡ g.heap i
  unfolding close_once
  close_once-other r i g other = ground (arith, other, unsubscribe_once-other r i g other)

  pub close_once-closed : (r : ℕ) (g : Gateway) → ((close_once client r g).heap r).closed ≡ true
  unfolding close_once
  close_once-closed r g = elim (Bool-cases (g.heap r).closed) [
    | inl shut ↦ rw shut shut
    | inr opened ↦ ground (arith, opened)
  ]

  pub close_once-next : (r : ℕ) (g : Gateway) → (close_once client r g).next ≡ g.next
  unfolding close_once unsubscribe_once call_client
  close_once-next r g = ground arith

  -- The registry has a new table, and closes the connection that the old one held, if any.
  close_existing-IsSingle :
      (o : Option ℕ) (g : Gateway)
      → ((r : ℕ)
          → r < g.next
          → (g.heap r).closed ≡ false
          → (lookup (g.heap r).charge_point_id g.conns ≡ some r) ⊎ (o ≡ some r))
      → IsSingle (close_existing client o g)
  unfolding close_existing
  close_existing-IsSingle none g h r below opened = elim (h r below opened) [
    | inl registered ↦ registered
    | inr held ↦ cc
  ]
  close_existing-IsSingle (some k) g h r below opened = elim (Bool-cases (eqb r k)) [
    | inl same ↦
        let shut : ((close_once client k g).heap r).closed ≡ true =
          rw (eqb-true r k same) (close_once-closed k g) in
        cc
    | inr other ↦
        let kept = close_once-other k r g other in
        elim (h r (rw (close_once-next k g) at below) (rw kept at opened)) [
          | inl registered ↦ rw (kept, close_existing-conns client (some k) g) registered
          | inr held ↦ let same : k ≡ r = cc in absurd (ground arith)
        ]
  ]

  disconnect-IsSingle : (id : String) (g : Gateway) → IsSingle g → IsSingle (disconnect client id g)
  unfolding disconnect
  disconnect-IsSingle id g v =
      close_existing-IsSingle (lookup id g.conns) (record g { conns = remove id g.conns })
        (λ r below opened.
          taken_over id none (remove id g.conns) r g (λ j. lookup-remove id j g.conns)
            (v r below opened))

  subscribe-IsSingle :
      (topic id : String) (g : Gateway) → IsSingle g → IsSingle (subscribe client topic id g).1
  unfolding subscribe call_client
  subscribe-IsSingle topic id g v = elim (Bool-cases client.is_connected) [
    | inl on ↦ rw on v
    | inr off ↦ rw off v
  ]

  connect_subscribed-IsSingle :
      (id : String) (answer : Result String) (g : Gateway)
      → IsSingle g
      → IsSingle (connect_subscribed client id (answer, g)).1
  unfolding connect_subscribed register_connection
  connect_subscribed-IsSingle id (err e) g v = v
  connect_subscribed-IsSingle id (ok topic) g v =
      let c : Connection = record {
        charge_point_id = id;
        unsubscribe = topic;
        unsubscribe_done = false;
        outbound = [];
        closed = false;
      } in
      let g' : Gateway = record g { next = suc g.next; heap = write_heap g.next c g.heap } in
      let same = write_heap-same g.next c g.heap in
      rw same (
        close_existing-IsSingle (lookup id g.conns) (record g' { conns = insert id g.next g.conns })
          (λ r below opened. elim (Bool-cases (eqb r g.next)) [
            | inl new ↦
                let last = eqb-true r g.next new in
                inl (
                  lookup-inserted-as id (g'.heap r).charge_point_id g.next r g.conns
                    (ap (λ x. x.charge_point_id) (ap (write_heap g.next c g.heap) last ∙ same))
                    (sym last))
            | inr old ↦
                let kept = write_heap-other g.next r c g.heap old in
                subst
                  (λ x.
                    (lookup x.charge_point_id (insert id g.next g.conns) ≡ some r)
                    ⊎ (lookup id g.conns ≡ some r))
                  (sym kept)
                  (taken_over id (some g.next) (insert id g.next g.conns) r g
                    (λ j. lookup-insert id j g.next g.conns)
                    (v r (ground arith) (rw kept at opened)))
          ]))

  connect-IsSingle : (id : String) (g : Gateway) → IsSingle g → IsSingle (connect client id g).1
  unfolding connect
  connect-IsSingle id g v =
      let answer = subscribe client (out_topic id) id g in
      connect_subscribed-IsSingle id answer.0 answer.1 (subscribe-IsSingle (out_topic id) id g v)

  publish_inbound-IsSingle :
      (id : String) (payload : Bytes) (g : Gateway)
      → IsSingle g
      → IsSingle (publish_inbound client id payload g).1
  unfolding publish_inbound publish_registered call_client
  publish_inbound-IsSingle id payload g v = elim (Option-cases (lookup id g.conns)) [
    | inl absent ↦ rw absent v
    | inr (r, registered) ↦ elim (Bool-cases client.is_connected) [
      | inl on ↦ rw (registered, on) v
      | inr off ↦ rw (registered, off) v
    ]
  ]

-- The operations of the gateway, one after the other, each with its own state of the MQTT client.
pub data Step : Gateway → Gateway → Type 0 where
  connects : (client : Client) (id : String) (g : Gateway) → Step g (connect client id g).1
  disconnects : (client : Client) (id : String) (g : Gateway) → Step g (disconnect client id g)
  forwards :
      (client : Client) (id : String) (payload : Bytes) (g : Gateway)
      → Step g (publish_inbound client id payload g).1

pub data Reach (g : Gateway) : Gateway → Type 0 where
  here : Reach g g
  next : {h k : Gateway} → Reach g h → Step h k → Reach g k

Step-IsSingle : {g h : Gateway} → Step g h → IsSingle g → IsSingle h
Step-IsSingle (connects client id g) v = connect-IsSingle client id g v
Step-IsSingle (disconnects client id g) v = disconnect-IsSingle client id g v
Step-IsSingle (forwards client id payload g) v = publish_inbound-IsSingle client id payload g v

Reach-kept : {g h : Gateway} → Reach g h → IsSingle g → IsSingle h
Reach-kept here v = v
Reach-kept (next before step) v = Step-IsSingle step (Reach-kept before v)

-- Over any sequence of Connect, Disconnect and PublishInbound, each connection that is not closed
-- is the one that the registry holds for its charge point; so a charge point has at most one.
pub Reach-IsSingle :
    {g h : Gateway}
    → Reach g h
    → IsSingle g
    → IsSingle h
      × ((r k : ℕ)
          → r < h.next
          → k < h.next
          → (h.heap r).closed ≡ false
          → (h.heap k).closed ≡ false
          → (h.heap r).charge_point_id ≡ (h.heap k).charge_point_id
          → r ≡ k)
Reach-IsSingle {h = h} run v =
    let single = Reach-kept run v in
    (
      single,
      λ r k below below' opened opened' same.
          let both : some r ≡ some k =
            sym (single r below opened)
            ∙ ap (λ id. lookup id h.conns) same
            ∙ single k below' opened' in
          cc,
    )
