-- ===== src/Core/CanonLog/Faithful.antt =====
-- The log as a faithful record of the frames that were observed.
mod Tests
use ocpp_simulator.Base.{
  ℤ, pos, ◌==ℤ◌, ==ℤ_iff, String, ◌==◌, eq_iff, ◌≡◌, ◌≢◌, refl, Bool, true, false, ◌⊎◌, inl, inr,
  List, [], ◌∷◌, ◌++◌, map, Option, none, some, All, All-concat, AllPairs, any, arith, ap, ◌∙◌,
  Bool-cases, Option-cases, sym, if◌then◌else◌,
}
use mathlib.Core.List.{map-append, append_assoc, append-nil}
use ocpp_simulator.Result.{Error, Result, ok, err}
use ocpp_simulator.Result.Laws.{Result-cases}
use ocpp_simulator.Json.{Json, Bytes, json}
use ocpp_simulator.Message.{Message, call, call_result, call_error}
use ocpp_simulator.Codec.{decode}
use ocpp_simulator.Codec.Shape.{WellFormed, is_call, is_result, is_error, decode-WellFormed}
use ocpp_simulator.Topic.{logged_id_from_topic}
use ocpp_simulator.Core.Store.{Call}
use ocpp_simulator.Core.Events.{fits_optional}
use ocpp_simulator.Core.MessageLogs.{MessageLog, new_log, admits_log, create_log}
use ocpp_simulator.Core.MessageLogs.Rows.{create_log-admitted}
use ocpp_simulator.Core.CanonLog.{
  str_ptr, logged_type_name, with_error, with_envelope, bare_row, row_of, persist,
}

-- A frame as the broker delivers it, with the surroundings of its INSERT.
pub record Delivery : Type 0 where
  pub statement : Call
  pub topic : String
  pub direction : String
  pub payload : Bytes

unfoldable pub record_all : List Delivery → List MessageLog → List MessageLog
record_all [] logs = logs
record_all (d ∷ ds) logs = record_all ds (persist d.statement d.topic d.direction d.payload logs)

-- What a row says of an accepted frame, by its type.
abbrev Typed : Message → MessageLog → Type 0
Typed m row =
    ((m.message_type_id ≡ call) × (row.message_type ≡ "CALL") × (row.status ≡ "ok"))
    ⊎ ((m.message_type_id ≡ call_result) × (row.message_type ≡ "CALLRESULT") × (row.status ≡ "ok"))
    ⊎ ((m.message_type_id ≡ call_error)
        × (row.message_type ≡ "CALLERROR")
        × (row.status ≡ "call_error")
        × (row.error_code ≡ some m.error_code)
        × (row.error_description ≡ some m.error_description))

-- The structured columns against the codec's view of the stored bytes.
abbrev pub Parsed : Result Message → MessageLog → Type 0
Parsed (err e) row = (row.status ≡ "parse_error") × (row.message_type ≡ "UNKNOWN")
Parsed (ok m) row =
    (row.unique_id ≡ str_ptr m.unique_id) × (row.action ≡ str_ptr m.action) × Typed m row

pub record IsFaithful (row : MessageLog) : Type 0 where
  pub addressed : row.charge_point_id ≡ logged_id_from_topic row.topic
  pub parsed : Parsed (decode row.payload_json) row

module _ (statement : Call) (id topic direction : String) (payload : Bytes) where
  -- The row that is stored keeps what was observed, whatever the frame.
  abbrev stored : MessageLog
  stored = new_log statement (row_of id topic direction payload)

  abbrev HoldsFrame : MessageLog → Type 0
  HoldsFrame row =
      (row.id ≡ statement.uuid)
      × (row.charge_point_id ≡ id)
      × (row.topic ≡ topic)
      × (row.direction ≡ direction)
      × (row.payload_json ≡ payload)
      × (row.transaction_numeric_id ≡ none)
      × (fits_optional row.message_type_id ≡ true)

  stored-HoldsFrame : HoldsFrame stored
  unfolding row_of with_envelope bare_row new_log
  stored-HoldsFrame = elim (Result-cases (decode payload)) [
    | inl (e, refused) ↦ rw (refused, with_envelope) (refl, refl, refl, refl, refl, refl, refl)
    | inr (m, accepted) ↦
        rw (accepted, with_envelope)
          (with_error-HoldsFrame m (decode-WellFormed payload m accepted))
  ]
    where
      with_error-HoldsFrame :
          (m : Message)
          → WellFormed m
          → HoldsFrame
              (new_log statement (with_envelope (ok m) (bare_row id topic direction payload)))
      with_error-HoldsFrame _ (is_call u a p) = (refl, refl, refl, refl, refl, refl, refl)
      with_error-HoldsFrame _ (is_result u p) = (refl, refl, refl, refl, refl, refl, refl)
      with_error-HoldsFrame _ (is_error u c d x) = (refl, refl, refl, refl, refl, refl, refl)

-- What was observed of a row, and of a delivery.
abbrev pub Observation : Type 0
Observation = String × String × Bytes

abbrev pub row_observation : MessageLog → Observation
row_observation row = (row.topic, row.direction, row.payload_json)

abbrev pub delivered : Delivery → Observation
delivered d = (d.topic, d.direction, d.payload)

-- The topic names a charge point, and the database takes the row.
abbrev pub IsRecordable : Delivery → Type 0
IsRecordable d = (logged_id_from_topic d.topic ≢ "") × (d.statement.failure ≡ none)

abbrev pub FreshIds : Delivery → Delivery → Type 0
FreshIds d e = d.statement.uuid ≢ e.statement.uuid

any-fresh :
    (uuid : String) (logs : List MessageLog)
    → All (λ row. row.id ≢ uuid) logs
    → any (λ row. row.id == uuid) logs ≡ false
unfolding any
any-fresh uuid [] _ = refl
any-fresh uuid (row ∷ logs) (h, hs) = ground (arith, eq_iff row.id uuid, any-fresh uuid logs hs, h)

admits-stored :
    (statement : Call) (id topic direction : String) (payload : Bytes) (logs : List MessageLog)
    → All (λ row. row.id ≢ statement.uuid) logs
    → admits_log (stored statement id topic direction payload) logs ≡ true
unfolding admits_log
admits-stored statement id topic direction payload logs fresh =
    let (uuid, _, _, _, _, numeric, type_id) =
      stored-HoldsFrame statement id topic direction payload in
    rw (uuid, numeric, type_id, any-fresh statement.uuid logs fresh) refl

persist-recorded :
    (d : Delivery) (logs : List MessageLog)
    → IsRecordable d
    → All (λ row. row.id ≢ d.statement.uuid) logs
    → persist d.statement d.topic d.direction d.payload logs
      ≡ logs
        ++ (stored d.statement (logged_id_from_topic d.topic) d.topic d.direction d.payload ∷ [])
unfolding persist
persist-recorded d logs (named, works) fresh =
    let id = logged_id_from_topic d.topic in
    let (uuid, _, _, _, _, numeric, type_id) =
      stored-HoldsFrame d.statement id d.topic d.direction d.payload in
    let named' : (id == "") ≡ false = ground (arith, eq_iff id "", named) in
    rw named' (
      create_log-admitted d.statement (row_of id d.topic d.direction d.payload) logs works
        (admits-stored d.statement id d.topic d.direction d.payload logs fresh))

fresh-concat :
    (row : MessageLog) (d : Delivery) (logs : List MessageLog) (ds : List Delivery)
    → row.id ≡ d.statement.uuid
    → All (FreshIds d) ds
    → All (λ e. All (λ r. r.id ≢ e.statement.uuid) logs) ds
    → All (λ e. All (λ r. r.id ≢ e.statement.uuid) (logs ++ (row ∷ []))) ds
fresh-concat row d logs [] own _ _ = tt
fresh-concat row d logs (e ∷ ds) own (differ, differs) (fresh, freshs) = (
  All-concat (λ r. r.id ≢ e.statement.uuid) logs row fresh (rw own differ),
  fresh-concat row d logs ds own differs freshs,
)

record_all-recorded :
    (ds : List Delivery) (logs : List MessageLog)
    → All IsRecordable ds
    → AllPairs FreshIds ds
    → All (λ d. All (λ row. row.id ≢ d.statement.uuid) logs) ds
    → map row_observation (record_all ds logs) ≡ map row_observation logs ++ map delivered ds
unfolding record_all
record_all-recorded [] logs _ _ _ = sym (append-nil (map row_observation logs))
record_all-recorded (d ∷ ds) logs (good, goods) (differ, differs) (fresh, freshs) =
    let row = stored d.statement (logged_id_from_topic d.topic) d.topic d.direction d.payload in
    let (uuid, _, on, way, bytes, _, _) =
      stored-HoldsFrame d.statement (logged_id_from_topic d.topic) d.topic d.direction d.payload in
    let seen : row_observation row ≡ delivered d = rw (on, way, bytes) refl in
    let later =
      record_all-recorded ds (logs ++ (row ∷ [])) goods differs
        (fresh-concat row d logs ds uuid differ freshs) in
    rw (persist-recorded d logs good fresh, later, map-append, seen, append_assoc) refl

-- A log that is empty at first holds, behind any deliveries that name a charge point, that the
-- database takes and whose rows get different ids, exactly what was delivered, once each, in the
-- order in which the rows are inserted: the topic, the direction, and the payload up to the
-- spacing and the escapes of its JSON.
pub record_all-delivered :
    (ds : List Delivery)
    → All IsRecordable ds
    → AllPairs FreshIds ds
    → map row_observation (record_all ds []) ≡ map delivered ds
record_all-delivered ds good differ = record_all-recorded ds [] good differ (no_rows ds)
  where
    no_rows :
        (ds : List Delivery)
        → All (λ d. All (λ (row : MessageLog). row.id ≢ d.statement.uuid) []) ds
    no_rows [] = tt
    no_rows (d ∷ ds) = (tt, no_rows ds)
