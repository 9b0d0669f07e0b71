-- ===== src/Processor/Audit.antt =====
-- audit.go: the audit records, and what the stdout emitter writes of one.
use ocpp_simulator.Base.{String, Bool, if◌then◌else◌}
use ocpp_simulator.Json.{Bytes, no_bytes}

pub record AuditEvent : Type 0 where
  pub kind : String
  pub charge_point_id : String
  pub topic : String
  pub action : String
  pub unique_id : String
  pub message_type : String
  pub direction : String
  pub decision : String
  pub note : String
  pub frame : Bytes

-- AuditEvent{}
abbrev pub empty_event : AuditEvent
empty_event = record {
  kind = "";
  charge_point_id = "";
  topic = "";
  action = "";
  unique_id = "";
  message_type = "";
  direction = "";
  decision = "";
  note = "";
  frame = no_bytes;
}

-- StdoutEmitter.Emit: the event that is marshalled and written as one line
unfoldable pub stdout_event : Bool → AuditEvent → AuditEvent
stdout_event include_frame ev = if include_frame then ev else record ev { frame = no_bytes }
