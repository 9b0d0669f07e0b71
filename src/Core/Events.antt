-- ===== src/Core/Events.antt =====
-- db/runtime_event_repo.go with the table `runtime_events`. As in Core/Store, a statement may fail
-- on its own, and how PostgreSQL orders rows by time is an argument.
use ocpp_simulator.Base.{
  ℕ, ℤ, pos, is_nonpositive, String, ◌==◌, Bool, true, not, ◌&&◌, List, [], ◌∷◌, ◌++◌, Option, none,
  some, any, select, take, if◌then◌else◌,
}
use ocpp_simulator.Result.{Error, Result, ok, err, wrap, external}
use ocpp_simulator.Core.Store.{Call, fits_integer, or_else}

pub record RuntimeEvent : Type 0 where
  pub id : String
  pub charge_point_id : Option String
  pub connector_num : Option ℤ
  pub event_type : String
  pub severity : String
  pub message : String
  pub payload_json : Option String
  pub created_at : String

-- The empty columns of an event are filled in.
new_event : Call → RuntimeEvent → RuntimeEvent
new_event call ev = record ev {
  id = or_else ev.id call.uuid;
  created_at = or_else ev.created_at call.now;
  severity = or_else ev.severity "info";
}

abbrev pub fits_optional : Option ℤ → Bool
fits_optional none = true
fits_optional (some n) = fits_integer n

admits_event : RuntimeEvent → List RuntimeEvent → Bool
unfolding any
admits_event ev events = not (any (λ e. e.id == ev.id) events) && fits_optional ev.connector_num

insert_event : Option Error → RuntimeEvent → List RuntimeEvent → Result String × List RuntimeEvent
unfolding admits_event
insert_event (some e) ev events = (err (wrap "insert runtime_event" e), events)
insert_event none ev events =
    if admits_event ev events
    then (ok ev.id, events ++ (ev ∷ []))
    else (err (wrap "insert runtime_event" (external "constraint violation")), events)

-- RuntimeEventRepo.Create
unfoldable pub create_event :
    Call → RuntimeEvent → List RuntimeEvent → Result String × List RuntimeEvent
unfolding insert_event new_event
create_event call ev events = insert_event call.failure (new_event call ev) events

-- if limit <= 0 { limit = 100 }
abbrev pub limit_or_default : ℤ → ℕ
limit_or_default (pos n) = if is_nonpositive (pos n) then 100 else n
limit_or_default _ = 100

abbrev is_or_null : String → Option String → Bool
is_or_null id none = true
is_or_null id (some s) = s == id

-- RuntimeEventRepo.ListByChargePoint: the newest events of the charge point and of none
unfoldable pub list_events :
    (List RuntimeEvent → List RuntimeEvent)
    → Call
    → String
    → ℤ
    → List RuntimeEvent
    → Result (List RuntimeEvent)
unfolding select
list_events newest_first call charge_point_id limit events = elim call.failure [
  | some e ↦ err e
  | none ↦ ok (
      take (limit_or_default limit)
        (newest_first (select (λ e. is_or_null charge_point_id e.charge_point_id) events)))
]
