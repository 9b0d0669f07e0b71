-- ===== src/Processor/Subscription/Runs.antt =====
-- Any callbacks, side by side: one reply to each CALL.
use ocpp_simulator.Base.{
  String, ◌==◌, eq_iff, ◌≡◌, ◌≢◌, refl, sym, ap, ◌∙◌, ◌⊎◌, inl, inr, List, [], ◌∷◌, ◌++◌,
  Bool-cases, ◌==ℤ◌, ==ℤ_iff, true, map,
}
use mathlib.Core.List.{append_assoc, append-nil}
use ocpp_simulator.Result.{ok}
use ocpp_simulator.Result.Laws.{Result-cases, ok_inj}
use ocpp_simulator.Json.{Bytes}
use ocpp_simulator.Message.{Message, call}
use ocpp_simulator.Codec.{decode}
use ocpp_simulator.Schemas.{SchemaLibrary}
use ocpp_simulator.Topic.{out_topic, charge_point_id_from_topic}
use ocpp_simulator.Processor.Handler.{Handler, World, handle}
use ocpp_simulator.Processor.Handler.Replies.{published, IsReplyTo, handle-Replied}
use ocpp_simulator.Processor.Handler.Outcomes.{handle-IsSilent}
use ocpp_simulator.Processor.Subscription.{Turn, delivered, on_message, on_messages}

module _ {S : Type 0} (library : SchemaLibrary) (h : Handler S) where
  -- The delivery asks for no reply: its topic names no charge point, or its frame is no CALL.
  abbrev pub NeedsNoReply : String → Bytes → Type 0
  NeedsNoReply topic raw =
      (charge_point_id_from_topic topic ≡ "")
      ⊎ ((m : Message) → decode raw ≡ ok m → m.message_type_id ≢ call)

  -- The publications that answer deliveries, one to each CALL, in their order.
  pub data Answered : List (String × Bytes) → List (String × Bytes) → Type 0 where
    done : Answered [] []
    skipped :
        {topic : String} {raw : Bytes} {ds fs : List (String × Bytes)}
        → NeedsNoReply topic raw
        → Answered ds fs
        → Answered ((topic, raw) ∷ ds) fs
    replied :
        {topic : String} {raw frame : Bytes} {ds fs : List (String × Bytes)} (m reply : Message)
        → decode raw ≡ ok m
        → m.message_type_id ≡ call
        → decode frame ≡ ok reply
        → IsReplyTo library h m reply
        → Answered ds fs
        → Answered ((topic, raw) ∷ ds) ((out_topic (charge_point_id_from_topic topic), frame) ∷ fs)

  -- One delivery publishes frames that answer it, whatever is delivered after it.
  Step : String → Bytes → World S → World S → Type 0
  Step topic raw w w' =
      (gs : List (String × Bytes)) × (published w'.events ≡ published w.events ++ gs)
      × ((ds fs : List (String × Bytes)) → Answered ds fs → Answered ((topic, raw) ∷ ds) (gs ++ fs))

  quiet-Step :
      (topic : String) (raw : Bytes) (w w' : World S)
      → NeedsNoReply topic raw
      → published w'.events ≡ published w.events
      → Step topic raw w w'
  unfolding Step
  quiet-Step topic raw w w' why same =
      ([], same ∙ sym (append-nil _), λ ds fs rest. skipped why rest)

  handle-Step :
      (topic : String) (raw : Bytes) (w : World S)
      → Step topic raw w (handle library h (charge_point_id_from_topic topic) raw w)
  unfolding Step
  handle-Step topic raw w = elim (Result-cases (decode raw)) [
    | inl (e, refused) ↦ silent (λ m decoded _. cc)
    | inr (m, decoded) ↦ elim (Bool-cases (m.message_type_id ==ℤ call)) [
      | inr other ↦ silent λ n same is.
          let kept : m ≡ n = ok_inj (sym decoded ∙ same) in
          let test : (n.message_type_id ==ℤ call) ≡ true = (==ℤ_iff _ _).1 is in cc
      | inl is_call ↦
          let call_type = (==ℤ_iff m.message_type_id call).0 is_call in
          let r =
            handle-Replied library h (charge_point_id_from_topic topic) raw m w decoded call_type in
          (
            _,
            r.one_more,
            λ ds fs rest. replied m r.reply decoded call_type r.decoded r.answers rest,
          )
    ]
  ]
    where
      silent :
          ((m : Message) → decode raw ≡ ok m → m.message_type_id ≢ call)
          → Step topic raw w (handle library h (charge_point_id_from_topic topic) raw w)
      silent no_call =
          quiet-Step topic raw w (handle library h (charge_point_id_from_topic topic) raw w)
            (inr no_call)
            (handle-IsSilent library h (charge_point_id_from_topic topic) raw w no_call).0

  on_message-Step :
      (topic : String) (raw : Bytes) (w : World S)
      → Step topic raw w (on_message library h topic raw w)
  unfolding on_message
  on_message-Step topic raw w = elim (Bool-cases (charge_point_id_from_topic topic == "")) [
    | inl dropped ↦
        rw (dropped, on_message) (quiet-Step topic raw w w (inl ((eq_iff _ _).0 dropped)) refl)
    | inr kept ↦ rw (kept, on_message) (handle-Step topic raw w)
  ]

  -- However callbacks run side by side, each finding ocpp-core in any state: they publish one
  -- reply to each CALL of a charge point and nothing else, each on the out topic of its own charge
  -- point and under the id of its CALL. The replies stand in the order in which the callbacks
  -- publish.
  pub on_messages-Answered :
      (ts : List (Turn S)) (w : World S)
      → (fs : List (String × Bytes)) × (published (on_messages library h ts w).events
          ≡ published w.events ++ fs)
        × Answered (map delivered ts) fs
  unfolding on_messages Step
  on_messages-Answered [] w = ([], sym (append-nil _), done)
  on_messages-Answered (t ∷ ts) w =
      let v : World S = record w { core_state = t.found } in
      let (fs, more, rest) = on_messages-Answered ts (on_message library h t.topic t.payload v) in
      let (gs, first, extend) = on_message-Step t.topic t.payload v in
      (
        gs ++ fs,
        more ∙ (ap (λ es. es ++ fs) first ∙ append_assoc (published w.events) gs fs),
        extend (map delivered ts) fs rest,
      )
