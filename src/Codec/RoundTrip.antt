-- ===== src/Codec/RoundTrip.antt =====
-- Encoding and decoding are inverse, on envelopes and on the frames that decoding accepts.
use ocpp_simulator.Base.{◌≡◌, refl, ◌≢◌, [], ◌∷◌, eq_iff, arith}
use ocpp_simulator.Result.{ok}
use ocpp_simulator.Json.{Bytes, json, num, str, array}
use ocpp_simulator.Message.{Message, call}
use ocpp_simulator.Codec.{encode, decode}
use ocpp_simulator.Codec.Shape.{WellFormed, is_call, is_result, is_error, decode-WellFormed}

-- A well-formed envelope, with an action that is not empty where it is a CALL, is encoded, and the
-- frame decodes to the envelope.
pub decode-encode :
    (m : Message)
    → WellFormed m
    → (m.message_type_id ≡ call → m.action ≢ "")
    → (raw : Bytes) × (encode m ≡ ok raw) × (decode raw ≡ ok m)
unfolding encode decode
decode-encode _ (is_call u a p) h = (frame, ground (arith, h refl, eq_iff a ""), refl)
  where
    frame : Bytes
    frame = json (array (num call ∷ str u ∷ str a ∷ p ∷ []))
decode-encode _ (is_result u p) h = (_, refl, refl)
decode-encode _ (is_error u c d x) h = (_, refl, refl)

-- Whatever frame was accepted, its envelope (with a non-empty action if it is a CALL) is encoded
-- again to a frame that is accepted as the same envelope.
pub decode-encode-decode :
    (raw : Bytes) (m : Message)
    → decode raw ≡ ok m
    → (m.message_type_id ≡ call → m.action ≢ "")
    → (raw' : Bytes) × (encode m ≡ ok raw') × (decode raw' ≡ ok m)
decode-encode-decode raw m e h = decode-encode m (decode-WellFormed raw m e) h
