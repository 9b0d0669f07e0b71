-- ===== src/Codec.antt =====
-- packages/ocpp-protocol/pkg/codec/codec.go: raw OCPP-J frames to and from the envelope.
-- An argument `payload interface{}` stands for the JSON value that json.Marshal makes of it; the
-- callers pass structs of strings, numbers and pointers, for which Marshal does not fail.
pub mod RoundTrip
pub mod Shape
mod Tests
use ocpp_simulator.Base.{
  ◌+◌, pos, ◌==ℤ◌, String, ◌==◌, Bool, List, [], ◌∷◌, Option, none, some, length, eqb, ltb, not,
  if◌then◌else◌,
}
use ocpp_simulator.Result.{Result, ok, err, msg, counted, wrapping, guard, ◌>>=◌, ◌>>◌}
use ocpp_simulator.Json.{Json, num, str, Bytes, json, array, object, marshal_raw}
use ocpp_simulator.Json.Unmarshal.{unmarshal, read_raws, read_string, read_int}
use ocpp_simulator.Message.{
  Message, empty_message, call, call_result, call_error, ErrorCode, code_text,
}

-- The frames, by message type. Marshal of a RawMessage refuses a text that is no JSON.
encode_call : Message → Result Bytes
encode_call m = do
  guard (not (m.action == "")) (msg "CALL requires action")
  payload ← marshal_raw m.payload
  ok (json (array (num call ∷ str m.unique_id ∷ str m.action ∷ payload ∷ [])))

encode_result : Message → Result Bytes
encode_result m = do
  payload ← marshal_raw m.payload
  ok (json (array (num call_result ∷ str m.unique_id ∷ payload ∷ [])))

encode_error : Message → Result Bytes
encode_error m = do
  details ← marshal_raw m.error_details
  ok (
      json (
        array (
          num call_error
          ∷ str m.unique_id
          ∷ str m.error_code
          ∷ str m.error_description
          ∷ details
          ∷ [])))

unfoldable pub encode : Message → Result Bytes
unfolding encode_call encode_result encode_error
encode m =
    if m.message_type_id ==ℤ call
    then encode_call m
    else if m.message_type_id ==ℤ call_result
    then encode_result m
    else if m.message_type_id ==ℤ call_error
    then encode_error m
    else err (msg "unknown message type")

-- The tails of the frame behind the type and the unique id, by message type. The lengths that the
-- errors quote are those of the whole frame.
decode_call : Message → List Json → Result Message
decode_call m (a ∷ p ∷ []) = do
  action ← wrapping "invalid action" (read_string a m.action)
  ok (record m { action = action; payload = json p })
decode_call m rest = err (counted "CALL frame must have 4 elements" (2 + length rest))

decode_result : Message → List Json → Result Message
decode_result m (p ∷ []) = ok (record m { payload = json p })
decode_result m rest = err (counted "CALLRESULT frame must have 3 elements" (2 + length rest))

decode_error : Message → List Json → Result Message
decode_error m (c ∷ d ∷ x ∷ []) = do
  error_code ← wrapping "invalid error code" (read_string c m.error_code)
  description ← wrapping "invalid error description" (read_string d m.error_description)
  ok (record m { error_code = error_code; error_description = description; error_details = json x })
decode_error m rest = err (counted "CALLERROR frame must have 5 elements" (2 + length rest))

-- The switch over the message type.
decode_body : Message → List Json → Result Message
unfolding decode_call decode_result decode_error
decode_body m rest =
    if m.message_type_id ==ℤ call
    then decode_call m rest
    else if m.message_type_id ==ℤ call_result
    then decode_result m rest
    else if m.message_type_id ==ℤ call_error
    then decode_error m rest
    else err (msg "unknown message type id")

decode_frame : List Json → Result Message
unfolding decode_body
decode_frame (t ∷ u ∷ rest) = do
  type_id ← wrapping "invalid message type id" (read_int t (pos 0))
  unique_id ← wrapping "invalid unique id" (read_string u "")
  decode_body (record empty_message { message_type_id = type_id; unique_id = unique_id }) rest
decode_frame short = err (counted "frame too short" (length short))

unfoldable pub decode : Bytes → Result Message
unfolding decode_frame
decode raw = do
  elements ← wrapping "invalid JSON array" (unmarshal read_raws raw [])
  decode_frame elements

unfoldable pub build_call : String → String → Json → Message
build_call unique_id action payload = record empty_message {
  message_type_id = call;
  unique_id = unique_id;
  action = action;
  payload = json payload;
}

-- The payload is a RawMessage at every call of BuildResult, so Marshal may refuse it.
unfoldable pub build_result : String → Bytes → Result Message
build_result unique_id payload = do
  data' ← wrapping "marshal payload" (marshal_raw payload)
  ok (record empty_message {
    message_type_id = call_result;
    unique_id = unique_id;
    payload = json data';
  })

abbrev details_or_empty : Option Json → Json
details_or_empty none = object []
details_or_empty (some d) = d

unfoldable pub build_error : String → ErrorCode → String → Option Json → Message
build_error unique_id code description details = record empty_message {
  message_type_id = call_error;
  unique_id = unique_id;
  error_code = code_text code;
  error_description = description;
  error_details = json (details_or_empty details);
}
