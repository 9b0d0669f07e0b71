-- ===== src/Gateway/Outbound.antt =====
-- The way of a frame from the out topic to the WebSocket: the handler of gateway.go, Connect, into
-- the channel of the connection, and pumpOutbound of ws.go out of it.
mod Tests
use ocpp_simulator.Base.{
  ℕ, suc, ◌≡◌, refl, sym, ap, ◌∙◌, ◌≤◌, ◌+◌, arith, String, Bool, true, false, ltb, List, [], ◌∷◌,
  ◌++◌, Option, none, some, map, length, length-append, length-map, eqb, if◌then◌else◌, ◌&&◌,
}
use mathlib.Core.List.{append_assoc, append-nil}
use ocpp_simulator.Base.Assoc.{lookup}
use ocpp_simulator.Json.{Bytes}
use ocpp_simulator.Gateway.{Connection, Gateway, write_heap}
use ocpp_simulator.Gateway.Sessions.{write_heap-same}

-- make(chan []byte, 64)
abbrev capacity : ℕ
capacity = 64

abbrev pub set_outbound : ℕ → List Bytes → Gateway → Gateway
set_outbound r payloads g = record g {
  heap = write_heap r (record (g.heap r) { outbound = payloads }) g.heap;
}

-- The select of the handler; `none` is a handler that waits, and `closed_first` the choice that Go
-- makes where the channel has room and the connection is closed.
unfoldable pub select_outbound : Bool → Bytes → ℕ → Gateway → Option Gateway
select_outbound closed_first payload r g =
    let c = g.heap r in
    if ltb (length c.outbound) capacity
    then (if c.closed && closed_first
        then some g
        else some (set_outbound r (c.outbound ++ (payload ∷ [])) g))
    else (if c.closed then some g else none)

unfoldable pub deliver_to : Bool → Bytes → Option ℕ → Gateway → Option Gateway
unfolding select_outbound
deliver_to closed_first payload none g = some g
deliver_to closed_first payload (some r) g = select_outbound closed_first payload r g

-- The handler that Connect subscribes
unfoldable pub deliver : Bool → String → Bytes → Gateway → Option Gateway
unfolding deliver_to lookup
deliver closed_first id payload g = deliver_to closed_first payload (lookup id g.conns) g

-- One turn of pumpOutbound on what the channel holds, with its choice where the connection is
-- closed too, and whether WriteMessage fails; the state behind the receive, and the later turns.
abbrev pub written :
    List Bytes → Bool → Bool → Gateway → Gateway → List Bytes × Gateway → List Bytes × Gateway
written [] closed fails g received later = ([], g)
written (p ∷ ps) closed fails g received later =
    if closed then ([], g) else (if fails then ([], received) else (p ∷ later.0, later.1))

abbrev pub rest_of : List Bytes → List Bytes
rest_of [] = []
rest_of (p ∷ ps) = ps

-- pumpOutbound: the frames that it writes. Behind the last turn, and where the channel is empty,
-- it waits.
unfoldable pub pump_outbound : ℕ → List (Bool × Bool) → Gateway → List Bytes × Gateway
pump_outbound r [] g = ([], g)
pump_outbound r ((closed_first, fails) ∷ turns) g =
    let c = g.heap r in
    let received : Gateway = set_outbound r (rest_of c.outbound) g in
    let later = pump_outbound r turns received in
    written c.outbound (c.closed && closed_first) fails g received later

-- Messages on the topic, one after the other, each with a choice of the select.
unfoldable pub deliver_all : String → List (Bool × Bytes) → Gateway → Option Gateway
unfolding deliver
deliver_all id [] g = some g
deliver_all id ((closed_first, p) ∷ ps) g = elim (deliver closed_first id p g) [
  | none ↦ none
  | some g' ↦ deliver_all id ps g'
]

-- Turns of the loop in which no write fails.
abbrev pub turns_of : List Bool → List (Bool × Bool)
turns_of choices = map (λ b. (b, false)) choices

deliver-queued :
    (closed_first : Bool) (id : String) (r : ℕ) (p : Bytes) (g : Gateway)
    → lookup id g.conns ≡ some r
    → (g.heap r).closed ≡ false
    → suc (length (g.heap r).outbound) ≤ 64
    → deliver closed_first id p g ≡ some (set_outbound r ((g.heap r).outbound ++ (p ∷ [])) g)
unfolding deliver deliver_to select_outbound
deliver-queued closed_first id r p g registered opened room =
    let fits : ltb (length (g.heap r).outbound) 64 ≡ true = ground arith in
    ap (λ o. deliver_to closed_first p o g) registered ∙ rw (fits, opened) refl

-- A turn of an open connection writes the first frame.
pump_outbound-turn :
    (r : ℕ) (b : Bool) (turns : List (Bool × Bool)) (p : Bytes) (ps : List Bytes) (g : Gateway)
    → (g.heap r).outbound ≡ p ∷ ps
    → (g.heap r).closed ≡ false
    → (pump_outbound r ((b, false) ∷ turns) g).0
      ≡ p ∷ (pump_outbound r turns (set_outbound r ps g)).0
unfolding pump_outbound
pump_outbound-turn r b turns p ps g held opened =
    ap
      (λ o.
        (written o ((g.heap r).closed && b) false g (set_outbound r (rest_of o) g)
          (pump_outbound r turns (set_outbound r (rest_of o) g))).0)
      held
    ∙ ap
        (λ c.
          (written (p ∷ ps) (c && b) false g (set_outbound r ps g)
            (pump_outbound r turns (set_outbound r ps g))).0)
        opened

pub pump_outbound-written :
    (r : ℕ) (choices : List Bool) (ps : List Bytes) (g : Gateway)
    → (g.heap r).outbound ≡ ps
    → (g.heap r).closed ≡ false
    → length choices ≡ length ps
    → (pump_outbound r (turns_of choices) g).0 ≡ ps
unfolding pump_outbound
pump_outbound-written r [] [] g held opened same = refl
pump_outbound-written r [] (p ∷ ps) g held opened same = absurd (omega arith)
pump_outbound-written r (b ∷ choices) [] g held opened same = absurd (omega arith)
pump_outbound-written r (b ∷ choices) (p ∷ ps) g held opened same =
    let kept = write_heap-same r (record (g.heap r) { outbound = ps }) g.heap in
    let later =
      pump_outbound-written r choices ps (set_outbound r ps g) (ap (λ c. c.outbound) kept)
        (ap (λ c. c.closed) kept ∙ opened) (omega arith) in
    pump_outbound-turn r b (turns_of choices) p ps g held opened ∙ ap (λ qs. p ∷ qs) later

-- What is delivered stands in the channel, behind what it held.
pub deliver_all-queued :
    (id : String) (r : ℕ) (ps : List (Bool × Bytes)) (g : Gateway)
    → lookup id g.conns ≡ some r
    → (g.heap r).closed ≡ false
    → length (g.heap r).outbound + length ps ≤ 64
    → (g' : Gateway) × (deliver_all id ps g ≡ some g')
      × ((g'.heap r).outbound ≡ (g.heap r).outbound ++ map {B = Bytes} (λ x. x.1) ps)
      × ((g'.heap r).closed ≡ false)
unfolding deliver_all
deliver_all-queued id r [] g registered opened room =
    (g, refl, sym (append-nil (g.heap r).outbound), opened)
deliver_all-queued id r ((b, p) ∷ ps) g registered opened room =
    let queue = (g.heap r).outbound ++ (p ∷ []) in
    let kept = write_heap-same r (record (g.heap r) { outbound = queue }) g.heap in
    let queued = ap (λ c. c.outbound) kept in
    let size : length queue ≡ length (g.heap r).outbound + 1 =
      length-append (g.heap r).outbound (p ∷ []) in
    let left : length ((set_outbound r queue g).heap r).outbound + length ps ≤ 64 =
      omega (arith, ap length queued, size) in
    let (g', sent, held, opened') =
      deliver_all-queued id r ps (set_outbound r queue g) registered
        (ap (λ c. c.closed) kept ∙ opened) left in
    (
      g',
      ap
            (λ (o : Option Gateway). elim o as (λ x. Option Gateway) [
              | none ↦ none
              | some next ↦ deliver_all id ps next
            ])
            (deliver-queued b id r p g registered opened (omega arith))
          ∙ sent,
      held
          ∙ ap (λ o. o ++ map {B = Bytes} (λ x. x.1) ps) queued
          ∙ append_assoc (g.heap r).outbound (p ∷ []) (map {B = Bytes} (λ x. x.1) ps),
      opened',
    )

-- While the connection of a charge point is registered and open and its channel empty, at most 64
-- messages on its out topic are taken without waiting, and as many turns of the loop in which no
-- write fails write them to the WebSocket, unchanged, each once and in their order.
pub deliver_all-pump_outbound :
    (id : String) (r : ℕ) (ps : List (Bool × Bytes)) (choices : List Bool) (g : Gateway)
    → lookup id g.conns ≡ some r
    → (g.heap r).closed ≡ false
    → (g.heap r).outbound ≡ []
    → length ps ≤ 64
    → length choices ≡ length ps
    → (g' : Gateway) × (deliver_all id ps g ≡ some g')
      × ((pump_outbound r (turns_of choices) g').0 ≡ map {B = Bytes} (λ x. x.1) ps)
deliver_all-pump_outbound id r ps choices g registered opened empty room same =
    let (g', sent, held, opened') =
      deliver_all-queued id r ps g registered opened (omega (arith, ap length empty)) in
    let queue : (g'.heap r).outbound ≡ map {B = Bytes} (λ x. x.1) ps =
      held ∙ ap (λ o. o ++ map {B = Bytes} (λ x. x.1) ps) empty in
    (
      g',
      sent,
      pump_outbound-written r choices (map {B = Bytes} (λ x. x.1) ps) g' queue opened'
          (same ∙ sym (length-map (λ (x : Bool × Bytes). x.1) ps)),
    )
