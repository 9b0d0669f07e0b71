-- ===== src/System/Requests.antt =====
-- The CALLs that the charge point builds (packages/ocpp-protocol/pkg/v16/protocol.go) against the
-- request types of ocpp-core (apps/ocpp-core/internal/api/server.go).
mod Tests
use ocpp_simulator.Base.{
  ◌≡◌, ◌≢◌, refl, sym, String, ◌==◌, eq_iff, fits_int64, true, none, some, Bool-cases, inl, inr, [],
  ◌∷◌,
}
use ocpp_simulator.Result.{ok}
use ocpp_simulator.Json.{Json, Bytes, json}
use ocpp_simulator.Json.Unmarshal.{read_struct}
use ocpp_simulator.Message.{Message, call}
use ocpp_simulator.Codec.{encode, decode, build_call}
use ocpp_simulator.Codec.Shape.{is_call}
use ocpp_simulator.Codec.RoundTrip.{decode-encode}
use ocpp_simulator.Protocol.{
  Surroundings, AuthorizeInput, StartTransactionInput, StopTransactionInput,
}
use ocpp_simulator.Protocol.V16.{build_authorize, build_start_transaction, build_stop_transaction}
use ocpp_simulator.Protocol.Versions.{
  protocol_16, Input, authorize, start_transaction, stop_transaction, build,
}
use ocpp_simulator.Processor.Handler.CoreAnswers.{
  CoreAction, authorizes, starts, stops, core_action,
}
use ocpp_simulator.Core.Api.{
  read_authorize_req, read_start_tx_req, read_stop_tx_req, no_authorize_req, no_start_tx_req,
  no_stop_tx_req,
}

-- What a charge point asks ocpp-core, with numbers of 64 bits.
pub data Asking : Type 0 where
  asks_authorize : AuthorizeInput → Asking
  asks_start :
      (i : StartTransactionInput)
      → fits_int64 i.connector_id ≡ true
      → fits_int64 i.meter_start ≡ true
      → Asking
  asks_stop :
      (i : StopTransactionInput)
      → fits_int64 i.transaction_id ≡ true
      → fits_int64 i.meter_stop ≡ true
      → Asking

abbrev pub input_of : Asking → Input
input_of (asks_authorize i) = authorize i
input_of (asks_start i _ _) = start_transaction i
input_of (asks_stop i _ _) = stop_transaction i

abbrev pub action_of : Asking → CoreAction
action_of (asks_authorize i) = authorizes
action_of (asks_start i _ _) = starts
action_of (asks_stop i _ _) = stops

-- ocpp-core reads the arguments, each in its own field.
abbrev pub IsRead : Asking → Json → Type 0
IsRead (asks_authorize i) p =
    read_authorize_req p no_authorize_req ≡ ok (record { id_tag = i.id_tag })
IsRead (asks_start i _ _) p =
    read_start_tx_req p no_start_tx_req
    ≡ ok (record {
      connector_id = i.connector_id;
      id_tag = i.id_tag;
      meter_start = i.meter_start;
      timestamp = i.timestamp;
    })
IsRead (asks_stop i _ _) p =
    read_stop_tx_req p no_stop_tx_req
    ≡ ok (record {
      transaction_id = i.transaction_id;
      id_tag = i.id_tag;
      meter_stop = i.meter_stop;
      timestamp = i.timestamp;
      reason = i.reason;
    })

-- A CALL under the fresh id, of the action, whose frame decodes to it and whose payload ocpp-core
-- reads.
pub record IsAsked (env : Surroundings) (a : Asking) : Type 0 where
  pub message : Message
  pub raw : Bytes
  pub arguments : Json
  pub built : build protocol_16 env (input_of a) ≡ ok message
  pub encoded : encode message ≡ ok raw
  pub decoded : decode raw ≡ ok message
  pub is_call : message.message_type_id ≡ call
  pub fresh : message.unique_id ≡ env.fresh_id
  pub named : message.action ≡ core_action (action_of a)
  pub carried : message.payload ≡ json arguments
  pub is_read : IsRead a arguments

call-IsAsked :
    (env : Surroundings) (a : Asking) (p : Json)
    → core_action (action_of a) ≢ ""
    → build protocol_16 env (input_of a)
      ≡ ok (build_call env.fresh_id (core_action (action_of a)) p)
    → IsRead a p
    → IsAsked env a
unfolding build_call
call-IsAsked env a p named built reads =
    let m = build_call env.fresh_id (core_action (action_of a)) p in
    let (raw, encoded, decoded) =
      decode-encode m (is_call env.fresh_id (core_action (action_of a)) p) (λ _. named) in
    record {
      message = m;
      raw = raw;
      arguments = p;
      built = built;
      encoded = encoded;
      decoded = decoded;
      is_call = refl;
      fresh = refl;
      named = refl;
      carried = refl;
      is_read = reads;
    }

-- The tag and the reason of a stop are left out where they are empty.
stop-IsRead :
    (env : Surroundings) (i : StopTransactionInput) (id_fits : fits_int64 i.transaction_id ≡ true)
    (meter_fits : fits_int64 i.meter_stop ≡ true)
    → IsAsked env (asks_stop i id_fits meter_fits)
unfolding build build_stop_transaction build_call read_stop_tx_req read_struct
stop-IsRead env i id_fits meter_fits =
    call-IsAsked env (asks_stop i id_fits meter_fits) _ (λ e. cc) refl
      (elim (Bool-cases (i.id_tag == "")) [
        | inl untagged ↦
            let no_tag : i.id_tag ≡ "" = (eq_iff _ _).0 untagged in
            elim (Bool-cases (i.reason == "")) [
              | inl silent ↦
                  let no_reason : i.reason ≡ "" = (eq_iff _ _).0 silent in
                  rw (untagged, silent, id_fits, meter_fits, no_tag, no_reason) refl
              | inr told ↦ rw (untagged, told, id_fits, meter_fits, no_tag) refl
            ]
        | inr tagged ↦ elim (Bool-cases (i.reason == "")) [
          | inl silent ↦
              let no_reason : i.reason ≡ "" = (eq_iff _ _).0 silent in
              rw (tagged, silent, id_fits, meter_fits, no_reason) refl
          | inr told ↦ rw (tagged, told, id_fits, meter_fits) refl
        ]
      ])

-- What the 1.6J protocol builds for an Authorize, a StartTransaction or a StopTransaction, with
-- numbers of 64 bits: a CALL of that action under the fresh id, which is encoded to a frame that
-- decodes to it, and whose payload ocpp-core reads as the arguments, each in its own field.
pub build-IsAsked : (env : Surroundings) (a : Asking) → IsAsked env a
unfolding build build_authorize build_start_transaction build_call read_authorize_req
    read_start_tx_req read_struct
build-IsAsked env (asks_authorize i) = call-IsAsked env (asks_authorize i) _ (λ e. cc) refl refl
build-IsAsked env (asks_start i connector_fits meter_fits) =
    call-IsAsked env (asks_start i connector_fits meter_fits) _ (λ e. cc) refl
      (rw (connector_fits, meter_fits) refl)
build-IsAsked env (asks_stop i id_fits meter_fits) = stop-IsRead env i id_fits meter_fits
