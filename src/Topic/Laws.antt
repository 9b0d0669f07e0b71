-- ===== src/Topic/Laws.antt =====
-- Ids, topics and their parsers agree, so one charge point's frames stay on its own topics.
use Prim.Native.String.{◌++◌}
use text.Mathlib.TextLemmas.{append_assoc}
use ocpp_simulator.Base.{
  String, eq_iff, ◌≡◌, refl, ◌≢◌, ◌↔◌, false, List, [], ◌∷◌, Option, none, some, arith, ap, ◌∙◌,
  sym,
}
use ocpp_simulator.Base.Texts.{
  split, contains_any, Lacks, Lacks-of_contains_any, split-append, split-append_ended,
  split_of_Lacks,
}
use ocpp_simulator.Topic.{
  slash, in_topic, out_topic, cut_prefix, is_topic_syntax, accepted_id, extract_charge_point_id,
  id_of_parts, charge_point_id_from_topic, logged_id_of_parts, logged_id_from_topic,
}

-- An id that can stand in a topic.
pub record IsTopicId (id : String) : Type 0 where
  pub nonempty : id ≢ ""
  pub one_level : contains_any is_topic_syntax id ≡ false

pub topic_id-Lacks : (id : String) → IsTopicId id → Lacks slash id
topic_id-Lacks id h = Lacks-of_contains_any is_topic_syntax slash id refl h.one_level

accepted_id-IsTopicId : (o : Option String) → accepted_id o ≢ "" → IsTopicId (accepted_id o)
unfolding accepted_id
accepted_id-IsTopicId none h = absurd (h refl)
accepted_id-IsTopicId (some id) h = record {
  nonempty = h;
  one_level = ground (arith, eq_iff id "");
}

-- The id that the WebSocket endpoint takes from a path is empty (and refused) or fit for a topic.
pub extract-IsTopicId :
    (path : String) → extract_charge_point_id path ≢ "" → IsTopicId (extract_charge_point_id path)
unfolding extract_charge_point_id
extract-IsTopicId path h = accepted_id-IsTopicId (cut_prefix "/ws/" path) h

split_root : (s : String) → split slash ("ocpp/" ++ s) ≡ "ocpp" ∷ split slash s
split_root s = split-append_ended slash "ocpp" "/" s (omega arith) refl

-- A topic has three levels.
split-in_topic :
    (id : String) → Lacks slash id → split slash (in_topic id) ≡ "ocpp" ∷ id ∷ "in" ∷ []
unfolding in_topic split
split-in_topic id h =
    split_root (id ++ "/in") ∙ ap (◌∷◌ "ocpp") (split-append slash id "/" "in" h refl)

split-out_topic :
    (id : String) → Lacks slash id → split slash (out_topic id) ≡ "ocpp" ∷ id ∷ "out" ∷ []
unfolding out_topic split
split-out_topic id h =
    split_root (id ++ "/out") ∙ ap (◌∷◌ "ocpp") (split-append slash id "/" "out" h refl)

-- The processor reads an id back from both of its topics.
pub charge_point_id-topics :
    (id : String)
    → IsTopicId id
    → (charge_point_id_from_topic (in_topic id) ≡ id)
      × (charge_point_id_from_topic (out_topic id) ≡ id)
unfolding charge_point_id_from_topic
charge_point_id-topics id h =
    let lacks = topic_id-Lacks id h in
    (
      rw (split-in_topic id lacks) (ground (arith, h.nonempty, eq_iff id "")),
      rw (split-out_topic id lacks) (ground (arith, h.nonempty, eq_iff id "")),
    )

-- So does the message log.
pub logged_id-topics :
    (id : String)
    → IsTopicId id
    → (logged_id_from_topic (in_topic id) ≡ id) × (logged_id_from_topic (out_topic id) ≡ id)
unfolding logged_id_from_topic
logged_id-topics id h =
    let lacks = topic_id-Lacks id h in
    (rw (split-in_topic id lacks) refl, rw (split-out_topic id lacks) refl)

-- For every request path from which the WebSocket endpoint takes an id, the processor and the
-- message log read that id back from both topics of the charge point.
pub topics_of_path :
    (path : String)
    → extract_charge_point_id path ≢ ""
    → let id = extract_charge_point_id path in
      (charge_point_id_from_topic (in_topic id) ≡ id)
      × (charge_point_id_from_topic (out_topic id) ≡ id)
      × (logged_id_from_topic (in_topic id) ≡ id)
      × (logged_id_from_topic (out_topic id) ≡ id)
topics_of_path path h =
    let id = extract_charge_point_id path in
    let fit = extract-IsTopicId path h in
    let (a, b) = charge_point_id-topics id fit in
    let (c, d) = logged_id-topics id fit in (a, b, c, d)

-- Ids that fit in a topic have a common in topic, or a common out topic, exactly when they are
-- equal, and the in topic of one is the out topic of none.
pub topics_isolated :
    (a b : String)
    → IsTopicId a
    → IsTopicId b
    → ((in_topic a ≡ in_topic b) ↔ (a ≡ b))
      × ((out_topic a ≡ out_topic b) ↔ (a ≡ b))
      × (in_topic a ≢ out_topic b)
topics_isolated a b h k = (
  (λ e. same_id (charge_point_id-topics a h).0 (charge_point_id-topics b k).0 e, ap in_topic),
  (λ e. same_id (charge_point_id-topics a h).1 (charge_point_id-topics b k).1 e, ap out_topic),
  λ e. directions_differ (
      sym (split-in_topic a (topic_id-Lacks a h))
      ∙ (ap (split slash) e ∙ split-out_topic b (topic_id-Lacks b k))),
)
  where
    same_id :
        {s t : String}
        → charge_point_id_from_topic s ≡ a
        → charge_point_id_from_topic t ≡ b
        → s ≡ t
        → a ≡ b
    same_id p q e = sym p ∙ (ap charge_point_id_from_topic e ∙ q)

    directions_differ : "ocpp" ∷ a ∷ "in" ∷ [] ≢ "ocpp" ∷ b ∷ "out" ∷ []
    directions_differ e = ground (arith, eq_iff "in" "out")

-- The id of the log is that of the processor wherever the processor accepts the topic.
pub logged_id-agrees :
    (topic : String)
    → charge_point_id_from_topic topic ≢ ""
    → logged_id_from_topic topic ≡ charge_point_id_from_topic topic
unfolding charge_point_id_from_topic logged_id_from_topic
logged_id-agrees topic h = agree (split slash topic) h
  where
    agree :
        (parts : List String)
        → id_of_parts parts ≢ ""
        → logged_id_of_parts parts ≡ id_of_parts parts
    agree (root ∷ id ∷ way ∷ []) h = ground (arith, eq_iff id "")
    agree [] h = absurd (h refl)
    agree _ h = absurd (h refl)

-- The log, unlike the processor, takes any third level: a topic `ocpp/{id}/{way}` of another
-- direction is logged under the id, and the processor drops it.
pub other_direction :
    (id way : String)
    → IsTopicId id
    → Lacks slash way
    → way ≢ "in"
    → way ≢ "out"
    → (logged_id_from_topic ("ocpp/" ++ (id ++ ("/" ++ way))) ≡ id)
      × (charge_point_id_from_topic ("ocpp/" ++ (id ++ ("/" ++ way))) ≡ "")
unfolding charge_point_id_from_topic logged_id_from_topic split
other_direction id way h lacks not_in not_out =
    (rw levels refl, rw levels (ground (arith, eq_iff way "in", eq_iff way "out")))
  where
    levels : split slash ("ocpp/" ++ (id ++ ("/" ++ way))) ≡ "ocpp" ∷ id ∷ way ∷ []
    levels =
        split_root (id ++ ("/" ++ way))
        ∙ ap (◌∷◌ "ocpp") (
            rw (← append_assoc) (
              split-append_ended slash id "/" way (topic_id-Lacks id h) refl
              ∙ ap (◌∷◌ id) (split_of_Lacks slash way lacks)))
