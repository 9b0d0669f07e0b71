-- ===== src/Topic/Tests.antt =====
-- Paths and topics of the tests of the services, and the theorems at concrete ids.
use ocpp_simulator.Base.{String, ◌≡◌, ◌≢◌, refl, eq_iff, arith, ◌↔◌}
use ocpp_simulator.Base.Texts.{contains_any}
use ocpp_simulator.Topic.{
  in_topic, out_topic, extract_charge_point_id, charge_point_id_from_topic, logged_id_from_topic,
}
use ocpp_simulator.Topic.Laws.{IsTopicId, topics_of_path, topics_isolated}

abbrev cp1 : String
cp1 = "CP-1"

paths :
    (extract_charge_point_id "/ws/CP-1" ≡ "CP-1")
    × (extract_charge_point_id "/ws/" ≡ "")
    × (extract_charge_point_id "/ws/a/b" ≡ "")
    × (extract_charge_point_id "/ws/a+b" ≡ "")
    × (extract_charge_point_id "/health" ≡ "")
unfolding extract_charge_point_id
paths = (refl, refl, refl, refl, refl)

topics :
    (charge_point_id_from_topic "ocpp/CP-1/in" ≡ "CP-1")
    × (charge_point_id_from_topic "ocpp/CP-1/status" ≡ "")
    × (charge_point_id_from_topic "ocpp//in" ≡ "")
    × (logged_id_from_topic "ocpp/CP-1/status" ≡ "CP-1")
unfolding charge_point_id_from_topic logged_id_from_topic
topics = (refl, refl, refl, refl)

cp1-IsTopicId : IsTopicId "CP-1"
unfolding contains_any
cp1-IsTopicId = record { nonempty = ground (arith, eq_iff "CP-1" ""); one_level = refl }

cp2-IsTopicId : IsTopicId "CP-2"
unfolding contains_any
cp2-IsTopicId = record { nonempty = ground (arith, eq_iff "CP-2" ""); one_level = refl }

topics_of_path_example :
    (charge_point_id_from_topic (in_topic "CP-1") ≡ "CP-1")
    × (charge_point_id_from_topic (out_topic "CP-1") ≡ "CP-1")
    × (logged_id_from_topic (in_topic "CP-1") ≡ "CP-1")
    × (logged_id_from_topic (out_topic "CP-1") ≡ "CP-1")
unfolding extract_charge_point_id
topics_of_path_example = topics_of_path "/ws/CP-1" (ground (arith, eq_iff "CP-1" ""))

topics_isolated_example :
    ((in_topic "CP-1" ≡ in_topic "CP-2") ↔ (cp1 ≡ "CP-2"))
    × ((out_topic "CP-1" ≡ out_topic "CP-2") ↔ (cp1 ≡ "CP-2"))
    × (in_topic "CP-1" ≢ out_topic "CP-2")
topics_isolated_example = topics_isolated "CP-1" "CP-2" cp1-IsTopicId cp2-IsTopicId
