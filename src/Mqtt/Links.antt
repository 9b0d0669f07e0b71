-- ===== src/Mqtt/Links.antt =====
-- What the client has been asked for, against the table of handlers, over any history.
use ocpp_simulator.Base.{
  ◌≡◌, refl, sym, subst, Bool, ◌||◌, All, String, ◌==◌, true, false, List, [], ◌∷◌, Option, none,
  some, map, Bool-cases, inl, inr, if◌then◌else◌,
}
use ocpp_simulator.Base.Assoc.{
  Assoc, lookup, lookup-insert, lookup-remove, Keyed, Keyed-insert, Keyed-remove,
}
use ocpp_simulator.Result.{Error}
use ocpp_simulator.Json.{Bytes}
use ocpp_simulator.Mqtt.{
  Request, dial, hang_up, send, Token, token_error, PahoBroker, Unsubscribe, request, ask_for,
  dialled, connect, disconnect, publish, subscribe, unsubscribe_once,
}
use ocpp_simulator.Mqtt.Routes.{
  routes, routes-append, IsVisit, routes-hit, insert-within, remove-within,
}

-- A topic stands in no list of these.
abbrev pub Missing : String → List String → Type 0
Missing topic topics = All (λ t. (t == topic) ≡ false) topics

-- A link, with the topics that the service has subscribed or unsubscribed without it since the last
-- Connect that brought it up.
pub record Link (H : Type 0) : Type 0 where
  pub broker : PahoBroker H
  pub untold : List String

-- The list behind an operation on a topic, with a link and without, and behind a Connect.
abbrev untold_by : Bool → String → List String → List String
untold_by true topic topics = topics
untold_by false topic topics = topic ∷ topics

abbrev untold_behind : Bool → Option Error → List String → List String
untold_behind false none topics = []
untold_behind false (some e) topics = topics
untold_behind true answer topics = topics

module _ {H : Type 0} where
  abbrev pub new_link : Link H
  new_link = record {
    broker = record { is_connected = false; handlers = []; requests = [] };
    untold = [];
  }

  -- What the client has been asked, one request after another, leaves each topic of the table that is
  -- not in the list with the handler of the table.
  pub record IsServed (l : Link H) : Type 0 where
    pub keyed : Keyed l.broker.handlers
    pub served :
        (topic : String) (h : H)
        → Missing topic l.untold
        → lookup topic l.broker.handlers ≡ some h
        → lookup topic (routes l.broker.requests []) ≡ some h

  -- What happens to a broker link: the operations, and the link that is lost, or comes up by itself.
  pub data Step (visit : Assoc H → Assoc H) : Link H → Link H → Type 0 where
    connects :
        (l : Link H) (token : Token)
        → Step visit l (record {
          broker = (connect visit token l.broker).1;
          untold =
              untold_behind l.broker.is_connected
                (token_error "mqtt connect timeout" token)
                l.untold;
        })
    disconnects : (l : Link H) → Step visit l (record l { broker = disconnect l.broker })
    link_is :
        (l : Link H) (up : Bool)
        → Step visit l (record l { broker = record l.broker { is_connected = up } })
    publishes :
        (l : Link H) (e : Error) (topic : String) (payload : Bytes) (token : Token)
        → Step visit l (record l { broker = (publish e topic payload token l.broker).1 })
    subscribes :
        (l : Link H) (topic : String) (h : H) (token : Token)
        → Step visit l (record {
          broker = (subscribe topic h token l.broker).1;
          untold = untold_by l.broker.is_connected topic l.untold;
        })
    unsubscribes :
        (l : Link H) (u : Unsubscribe)
        → Step visit l (record {
          broker = (unsubscribe_once u l.broker).1;
          untold = untold_by (u.done || l.broker.is_connected) u.topic l.untold;
        })

  pub data Reach (visit : Assoc H → Assoc H) (l : Link H) : Link H → Type 0 where
    here : Reach visit l l
    next : {k m : Link H} → Reach visit l k → Step visit k m → Reach visit l m

module _ {H : Type 0} (visit : Assoc H → Assoc H) (visits : IsVisit visit) where
  -- A request that is on no topic changes no route.
  request-IsServed :
      (r : Request H) (b : PahoBroker H) (ts : List String)
      → ((m : Assoc H) → routes (r ∷ []) m ≡ m)
      → IsServed (record { broker = b; untold = ts })
      → IsServed (record { broker = request r b; untold = ts })
  request-IsServed r b ts same v = record {
    keyed = v.keyed;
    served = λ t h off found.
        (rw (routes-append b.requests (r ∷ []) [], same (routes b.requests []))
          (v.served t h off found));
  }

  dialled-IsServed :
      (answer : Option Error) (b : PahoBroker H) (ts : List String)
      → IsServed (record { broker = b; untold = ts })
      → IsServed
          (record { broker = (dialled visit answer b).1; untold = untold_behind false answer ts })
  unfolding dialled
  dialled-IsServed (some e) b ts v = record { keyed = v.keyed; served = v.served }
  dialled-IsServed none b ts v = record {
    keyed = v.keyed;
    served = λ topic h off found.
        rw (routes-append b.requests (map ask_for (visit b.handlers)) []) (
          routes-hit (visit b.handlers) (routes b.requests []) topic h (visits.keyed _ v.keyed)
            (rw (visits.same topic b.handlers v.keyed) found));
  }

  connect-IsServed :
      (token : Token) (up : Bool) (b : PahoBroker H) (ts : List String)
      → b.is_connected ≡ up
      → IsServed (record { broker = b; untold = ts })
      → IsServed (record {
        broker = (connect visit token b).1;
        untold = untold_behind up (token_error "mqtt connect timeout" token) ts;
      })
  unfolding connect routes
  connect-IsServed token true b ts same v = rw same (record { keyed = v.keyed; served = v.served })
  connect-IsServed token false b ts same v =
      let answer = token_error "mqtt connect timeout" token in
      subst
        (λ up. IsServed (record {
          broker = (if up then (none, b) else dialled visit answer (request dial b)).1;
          untold = untold_behind false answer ts;
        }))
        (sym same)
        (dialled-IsServed answer (request dial b) ts (request-IsServed dial b ts (λ m. refl) v))

  disconnect-IsServed :
      (b : PahoBroker H) (ts : List String)
      → IsServed (record { broker = b; untold = ts })
      → IsServed (record { broker = disconnect b; untold = ts })
  unfolding disconnect routes
  disconnect-IsServed b ts v = elim (Bool-cases b.is_connected) [
    | inl up ↦
        let told = request-IsServed hang_up b ts (λ m. refl) v in
        rw up (record { keyed = told.keyed; served = told.served })
    | inr down ↦ rw down (record { keyed = v.keyed; served = v.served })
  ]

  publish-IsServed :
      (e : Error) (topic : String) (payload : Bytes) (token : Token) (b : PahoBroker H)
      (ts : List String)
      → IsServed (record { broker = b; untold = ts })
      → IsServed (record { broker = (publish e topic payload token b).1; untold = ts })
  unfolding publish routes
  publish-IsServed e topic payload token b ts v = elim (Bool-cases b.is_connected) [
    | inl up ↦
        let told = request-IsServed (send topic payload) b ts (λ m. refl) v in
        rw up (record { keyed = told.keyed; served = told.served })
    | inr down ↦ rw down (record { keyed = v.keyed; served = v.served })
  ]

  -- A request that puts the handler of the table there, or, without a link, one more topic that the
  -- client is not told of.
  subscribe-IsServed :
      (topic : String) (handler : H) (token : Token) (up : Bool) (b : PahoBroker H)
      (ts : List String)
      → b.is_connected ≡ up
      → IsServed (record { broker = b; untold = ts })
      → IsServed
          (record { broker = (subscribe topic handler token b).1; untold = untold_by up topic ts })
  unfolding subscribe routes
  subscribe-IsServed topic handler token true b ts same v = rw same (record {
    keyed = Keyed-insert topic handler b.handlers v.keyed;
    served = λ t h off found. rw (routes-append b.requests) (
        insert-within topic t handler h b.handlers (routes b.requests []) (v.served t h off) found);
  })
  subscribe-IsServed topic handler token false b ts same v = rw same (record {
    keyed = Keyed-insert topic handler b.handlers v.keyed;
    served = λ t h (other, off) found. (v.served t h off (rw (lookup-insert, other) at found));
  })

  unsubscribe-IsServed :
      (u : Unsubscribe) (b : PahoBroker H) (ts : List String)
      → IsServed (record { broker = b; untold = ts })
      → IsServed (record {
        broker = (unsubscribe_once u b).1;
        untold = untold_by (u.done || b.is_connected) u.topic ts;
      })
  unfolding unsubscribe_once routes
  unsubscribe-IsServed u b ts v = elim (Bool-cases u.done) [
    | inl done ↦ rw done (record { keyed = v.keyed; served = v.served })
    | inr first ↦ elim (Bool-cases b.is_connected) [
      | inl up ↦
          rw (first, up)
            (record {
              keyed = Keyed-remove u.topic b.handlers v.keyed;
              served = λ t h off found. rw (routes-append b.requests) (
                  remove-within u.topic t h b.handlers (routes b.requests []) (v.served t h off)
                    found);
            })
      | inr down ↦
          rw (first, down)
            (record {
              keyed = Keyed-remove u.topic b.handlers v.keyed;
              served =
                  λ t h (other, off) found. (v.served t h off (rw (lookup-remove, other) at found));
            })
    ]
  ]

  Step-IsServed : {k l : Link H} → Step visit k l → IsServed k → IsServed l
  Step-IsServed (connects l token) v = connect-IsServed token _ l.broker l.untold refl v
  Step-IsServed (disconnects l) v = disconnect-IsServed l.broker l.untold v
  Step-IsServed (link_is l up) v = record { keyed = v.keyed; served = v.served }
  Step-IsServed (publishes l e topic payload token) v =
      publish-IsServed e topic payload token l.broker l.untold v
  Step-IsServed (subscribes l topic h token) v =
      subscribe-IsServed topic h token _ l.broker l.untold refl v
  Step-IsServed (unsubscribes l u) v = unsubscribe-IsServed u l.broker l.untold v

  -- However a service connects a new client, disconnects, subscribes, unsubscribes and publishes,
  -- and the link is lost and comes up by itself, where each visit of a map meets each of its
  -- entries: what the client has been asked, one request after another, leaves with the handler of
  -- the table each topic of the table, except one that the service subscribed or unsubscribed
  -- without a link since the last Connect whose token reported no error.
  pub Reach-IsServed : {l : Link H} → Reach visit new_link l → IsServed l
  unfolding lookup
  Reach-IsServed here = record { keyed = tt; served = λ topic h off found. cc }
  Reach-IsServed (next before step) = Step-IsServed step (Reach-IsServed before)
