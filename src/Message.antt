-- ===== src/Message.antt =====
-- packages/ocpp-protocol/pkg/message/message.go: the OCPP-J envelope and the error codes.
-- The random bytes of a unique id, and their hexadecimal text, are an argument.
use ocpp_simulator.Base.{ℤ, pos, String, Option, none, some}
use ocpp_simulator.Json.{Bytes, no_bytes}

-- MessageTypeID, and its three legal values
abbrev pub call : ℤ
call = pos 2

abbrev pub call_result : ℤ
call_result = pos 3

abbrev pub call_error : ℤ
call_error = pos 4

pub record Message : Type 0 where
  pub message_type_id : ℤ
  pub unique_id : String
  pub action : String
  pub payload : Bytes
  pub error_code : String
  pub error_description : String
  pub error_details : Bytes

-- Message{}
abbrev pub empty_message : Message
empty_message = record {
  message_type_id = pos 0;
  unique_id = "";
  action = "";
  payload = no_bytes;
  error_code = "";
  error_description = "";
  error_details = no_bytes;
}

-- GenerateUniqueID: the text of 16 random bytes, or what it falls back to
unfoldable pub generate_unique_id : Option String → String
generate_unique_id none = "fallback-16"
generate_unique_id (some hex) = hex

pub data ErrorCode : Type 0 where
  not_implemented_code not_supported internal_error protocol_error security_error : ErrorCode
  formation_violation property_constraint_violation occurrence_constraint_violation : ErrorCode
  type_constraint_violation generic_error : ErrorCode

-- string(code)
abbrev pub code_text : ErrorCode → String
code_text not_implemented_code = "NotImplemented"
code_text not_supported = "NotSupported"
code_text internal_error = "InternalError"
code_text protocol_error = "ProtocolError"
code_text security_error = "SecurityError"
code_text formation_violation = "FormationViolation"
code_text property_constraint_violation = "PropertyConstraintViolation"
code_text occurrence_constraint_violation = "OccurrenceConstraintViolation"
code_text type_constraint_violation = "TypeConstraintViolation"
code_text generic_error = "GenericError"
