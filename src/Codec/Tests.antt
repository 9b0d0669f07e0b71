-- ===== src/Codec/Tests.antt =====
-- Frames of each type, refused frames, and the round trip at concrete envelopes.
use ocpp_simulator.Base.{◌≡◌, refl, pos, [], ◌∷◌}
use ocpp_simulator.Result.{ok, err, msg, counted}
use ocpp_simulator.Json.{null, num, str, Bytes, json, array, object, Items, arr, elems}
use ocpp_simulator.Base.{length}
use ocpp_simulator.Message.{Message, empty_message, call}
use ocpp_simulator.Codec.{encode, decode}
use ocpp_simulator.Codec.Shape.{WellFormed, is_call, arity, decode-Accepted}
use ocpp_simulator.Codec.RoundTrip.{decode-encode}

abbrev heartbeat : Message
heartbeat = record empty_message {
  message_type_id = call;
  unique_id = "7";
  action = "Heartbeat";
  payload = json (object []);
}

abbrev heartbeat_frame : Bytes
heartbeat_frame = json (array (num (pos 2) ∷ str "7" ∷ str "Heartbeat" ∷ object [] ∷ []))

encode-heartbeat : encode heartbeat ≡ ok heartbeat_frame
unfolding encode
encode-heartbeat = refl

decode-heartbeat : decode heartbeat_frame ≡ ok heartbeat
unfolding decode
decode-heartbeat = refl

-- `null` for the action leaves it empty, and such an envelope is not encoded again.
decode_null_action :
    decode (json (array (num (pos 2) ∷ str "7" ∷ null ∷ object [] ∷ [])))
    ≡ ok (record heartbeat { action = "" })
unfolding decode
decode_null_action = refl

encode_no_action : encode (record heartbeat { action = "" }) ≡ err (msg "CALL requires action")
unfolding encode
encode_no_action = refl

decode_short : decode (json (array (num (pos 2) ∷ []))) ≡ err (counted "frame too short" 1)
unfolding decode
decode_short = refl

decode_null : decode (json null) ≡ err (counted "frame too short" 0)
unfolding decode
decode_null = refl

decode-encode_example : (raw : Bytes) × (encode heartbeat ≡ ok raw) × (decode raw ≡ ok heartbeat)
decode-encode_example = decode-encode heartbeat (is_call "7" "Heartbeat" (object [])) (λ _. cc)

decode-Accepted_example :
    WellFormed heartbeat
    × (js : Items) × (heartbeat_frame ≡ json (arr js))
    × (length (elems js) ≡ arity heartbeat.message_type_id)
decode-Accepted_example = decode-Accepted heartbeat_frame heartbeat decode-heartbeat
