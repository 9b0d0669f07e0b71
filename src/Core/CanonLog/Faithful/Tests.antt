-- ===== src/Core/CanonLog/Faithful/Tests.antt =====
-- A log of a CALL, its CALLERROR and a broken frame, and a delivery on a strange topic.
use ocpp_simulator.Base.{
  pos, ◌≡◌, ◌≢◌, refl, String, ◌==◌, false, eq_iff, List, [], ◌∷◌, map, none, All, arith,
}
use ocpp_simulator.Json.{num, str, Bytes, json, junk, array, object}
use ocpp_simulator.Codec.{decode}
use ocpp_simulator.Topic.{logged_id_from_topic}
use ocpp_simulator.Core.MessageLogs.{MessageLog, create_log}
use ocpp_simulator.Core.CanonLog.{persist}
use ocpp_simulator.Core.CanonLog.Faithful.{
  Delivery, record_all, row_observation, delivered, IsRecordable, record_all-delivered,
}

abbrev delivery : String → String → String → Bytes → Delivery
delivery uuid topic direction payload = record {
  statement = record { now = "2026-01-01T00:00:00Z"; uuid = uuid; failure = none };
  topic = topic;
  direction = direction;
  payload = payload;
}

abbrev deliveries : List Delivery
deliveries =
    delivery "a" "ocpp/CP1/in" "inbound"
      (json (array (num (pos 2) ∷ str "7" ∷ str "Heartbeat" ∷ object [] ∷ [])))
    ∷ delivery "b" "ocpp/CP1/out" "outbound"
        (json (array (num (pos 4) ∷ str "7" ∷ str "GenericError" ∷ str "no" ∷ object [] ∷ [])))
    ∷ delivery "c" "ocpp/CP1/in" "inbound" (junk "[2,")
    ∷ []

statuses :
    map {B = String × String}
      (λ (row : MessageLog). (row.message_type, row.status))
      (record_all deliveries [])
    ≡ ("CALL", "ok") ∷ ("CALLERROR", "call_error") ∷ ("UNKNOWN", "parse_error") ∷ []
unfolding record_all persist create_log logged_id_from_topic decode
statuses = refl

persist-strange_topic :
    persist (record { now = ""; uuid = "a"; failure = none }) "other/CP1/in" "inbound" (junk "x") []
    ≡ []
unfolding persist logged_id_from_topic
persist-strange_topic = refl

differ : (s t : String) → (s == t) ≡ false → s ≢ t
differ s t apart same = ground (arith, eq_iff s t)

deliveries-IsRecordable : All IsRecordable deliveries
unfolding logged_id_from_topic
deliveries-IsRecordable = (((λ e. cc), refl), (((λ e. cc), refl), (((λ e. cc), refl), tt)))

record_all-delivered_example :
    map row_observation (record_all deliveries []) ≡ map delivered deliveries
record_all-delivered_example =
    record_all-delivered deliveries deliveries-IsRecordable
      ((differ "a" "b" refl, (differ "a" "c" refl, tt)), ((differ "b" "c" refl, tt), (tt, tt)))
