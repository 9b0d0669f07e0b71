-- ===== src/Mqtt/Tests.antt =====
-- A handler that is registered before the link, Connect, a link that is lost and comes back, and the
-- end of the subscription.
use ocpp_simulator.Base.{ℕ, true, false, ◌≡◌, refl, [], ◌∷◌, none}
use ocpp_simulator.Base.Assoc.{Assoc}
use ocpp_simulator.Mqtt.{
  dial, ask, withdraw, times_out, completes, PahoBroker, Unsubscribe, connect, subscribe,
  unsubscribe_once,
}
use ocpp_simulator.Mqtt.Routes.{IsVisit}
use ocpp_simulator.Mqtt.Links.{
  Link, new_link, IsServed, Reach, here, next, connects, link_is, subscribes, unsubscribes,
  Reach-IsServed,
}

abbrev visit : Assoc ℕ → Assoc ℕ
visit m = m

abbrev registered : Link ℕ
registered = record {
  broker = (subscribe "a" 7 (completes none) new_link.broker).1;
  untold = "a" ∷ [];
}

-- Connect times out, and the link comes up all the same: the handler is not asked for.
abbrev up_late : PahoBroker ℕ
up_late = record (connect visit times_out registered.broker).1 { is_connected = true }

up_late-requests : up_late.requests ≡ dial ∷ []
unfolding connect subscribe
up_late-requests = refl

abbrev linked : Link ℕ
linked = record { broker = (connect visit (completes none) registered.broker).1; untold = [] }

abbrev closure : Unsubscribe
closure = record { topic = "a"; done = false }

abbrev resumed : Link ℕ
resumed = record {
  broker = record (record linked.broker { is_connected = false }) { is_connected = true };
  untold = [];
}

abbrev ended : Link ℕ
ended = record { broker = (unsubscribe_once closure resumed.broker).1; untold = [] }

requests-ended : ended.broker.requests ≡ dial ∷ ask "a" 7 ∷ withdraw "a" ∷ []
unfolding connect subscribe unsubscribe_once
requests-ended = refl

visit-IsVisit : IsVisit visit
visit-IsVisit = record { keyed = λ m h. h; same = λ topic m h. refl }

run-ended : Reach visit new_link ended
unfolding connect subscribe
run-ended =
    next
      (next
        (next
          (next (next here (subscribes new_link "a" 7 (completes none)))
            (connects registered (completes none)))
          (link_is linked false))
        (link_is (record linked { broker = record linked.broker { is_connected = false } }) true))
      (unsubscribes resumed closure)

Reach-IsServed_example : IsServed ended
Reach-IsServed_example = Reach-IsServed visit visit-IsVisit run-ended
