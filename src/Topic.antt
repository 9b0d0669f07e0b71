-- ===== src/Topic.antt =====
-- The MQTT topics of a charge point and the parsers of charge point ids:
-- apps/ocpp-gateway/internal/gateway/gateway.go (InTopic, OutTopic) and ws.go
-- (extractChargePointID), apps/message-processor/internal/processor/processor.go
-- (ChargePointIDFromTopic) and apps/ocpp-core/internal/canonlog/service.go
-- (chargePointIDFromTopic). Topics are `ocpp/{id}/in` and `ocpp/{id}/out`.
pub mod Laws
mod Tests
use Prim.Native.Char.{code}
use Prim.Native.String.{◌++◌}
use ocpp_simulator.Base.{
  ℕ, String, ◌==◌, Bool, not, ◌&&◌, ◌||◌, List, [], ◌∷◌, Option, none, some, eqb, if◌then◌else◌,
}
use ocpp_simulator.Base.Texts.{split, contains_any}

abbrev pub slash : ℕ
slash = b'/'

unfoldable pub in_topic : String → String
in_topic id = "ocpp/" ++ (id ++ "/in")

unfoldable pub out_topic : String → String
out_topic id = "ocpp/" ++ (id ++ "/out")

-- strings.HasPrefix with strings.TrimPrefix: the rest behind the prefix, if the text has it
unfoldable pub cut_prefix : String → String → Option String
cut_prefix String.[] s = some s
cut_prefix (String.◌∷◌ c p) String.[] = none
cut_prefix (String.◌∷◌ c p) (String.◌∷◌ d s) =
    if eqb (code c) (code d) then cut_prefix p s else none

-- "/+#"
abbrev pub is_topic_syntax : ℕ → Bool
is_topic_syntax c = eqb c slash || eqb c b'+' || eqb c b'#'

accepted_id : Option String → String
unfolding contains_any
accepted_id none = ""
accepted_id (some id) = if id == "" || contains_any is_topic_syntax id then "" else id

-- extractChargePointID: the id of a request path `/ws/{id}`, or ""
unfoldable pub extract_charge_point_id : String → String
unfolding cut_prefix accepted_id
extract_charge_point_id path = accepted_id (cut_prefix "/ws/" path)

id_of_parts : List String → String
id_of_parts (root ∷ id ∷ way ∷ []) =
    if not (root == "ocpp") || not (way == "in") && not (way == "out")
    then ""
    else if id == ""
    then ""
    else id
id_of_parts _ = ""

-- processor.ChargePointIDFromTopic
unfoldable pub charge_point_id_from_topic : String → String
unfolding split id_of_parts
charge_point_id_from_topic topic = id_of_parts (split slash topic)

logged_id_of_parts : List String → String
logged_id_of_parts (root ∷ id ∷ way ∷ []) = if not (root == "ocpp") then "" else id
logged_id_of_parts _ = ""

-- canonlog.chargePointIDFromTopic
unfoldable pub logged_id_from_topic : String → String
unfolding split logged_id_of_parts
logged_id_from_topic topic = logged_id_of_parts (split slash topic)
