-- ===== src/Gateway/Single/Tests.antt =====
-- A charge point that connects twice, and another one.
use ocpp_simulator.Base.{ℕ, ◌≡◌, refl, ◌<◌, true, false, [], none}
use ocpp_simulator.Gateway.{Client, Gateway, connect}
use ocpp_simulator.Gateway.Single.{IsSingle, Reach, here, next, connects, Reach-IsSingle}

abbrev client : Client
client = record {
  is_connected = true;
  subscribe_answer = λ topic. none;
  publish_answer = λ topic payload. none;
}

abbrev idle : Gateway
idle = record {
  handlers = [];
  calls = [];
  next = 0;
  heap = λ r. record {
    charge_point_id = "";
    unsubscribe = "";
    unsubscribe_done = true;
    outbound = [];
    closed = true;
  };
  conns = [];
}

abbrev first : Gateway
first = (connect client "CP1" idle).1

abbrev again : Gateway
again = (connect client "CP1" first).1

run : Reach idle again
run = next (next here (connects client "CP1" idle)) (connects client "CP1" first)

idle-IsSingle : IsSingle idle
idle-IsSingle r below opened = cc

replaced : (again.heap 0).closed ≡ true
unfolding connect
replaced = refl

Reach-IsSingle_example :
    IsSingle again
    × ((r k : ℕ)
        → r < again.next
        → k < again.next
        → (again.heap r).closed ≡ false
        → (again.heap k).closed ≡ false
        → (again.heap r).charge_point_id ≡ (again.heap k).charge_point_id
        → r ≡ k)
Reach-IsSingle_example = Reach-IsSingle run idle-IsSingle
