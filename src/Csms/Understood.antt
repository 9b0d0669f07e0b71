-- ===== src/Csms/Understood.antt =====
-- The commands of apps/ocpp-core/internal/csms/service.go against the parsers of
-- packages/ocpp-protocol/pkg/v16/protocol.go, through the codec.
pub mod Tests
use ocpp_simulator.Base.{
  ◌+◌, ◌≡◌, ◌≢◌, ◌⊎◌, arith, refl, ℤ, fits_int64, is_nonpositive, String, ◌==◌, Bool, true, false,
  not, List, [], ◌∷◌, ◌++◌, Option, none, some, if◌then◌else◌, inl, inr, Bool-cases, Option-cases,
}
use ocpp_simulator.Result.{Error, Result, ok, err, msg}
use ocpp_simulator.Json.{Json, Bytes, json, array, no_bytes}
use ocpp_simulator.Json.Unmarshal.{read_struct}
use ocpp_simulator.Message.{Message, call}
use ocpp_simulator.Codec.{encode, decode, build_call}
use ocpp_simulator.Codec.Shape.{is_call}
use ocpp_simulator.Codec.RoundTrip.{decode-encode}
use ocpp_simulator.Schemas.{SchemaLibrary, v16, request, validate}
use ocpp_simulator.Topic.{out_topic}
use ocpp_simulator.Protocol.V16.Requests.{
  texts, read_strings, parse_remote_start_transaction_request,
  parse_remote_stop_transaction_request, parse_reset_request, parse_unlock_connector_request,
  parse_change_configuration_request, parse_get_configuration_request,
  parse_trigger_message_request, parse_change_availability_request,
}
use ocpp_simulator.Csms.{
  Surroundings, Service, publish, remote_start, remote_stop, reset, unlock_connector,
  change_configuration, get_configuration, trigger_message, change_availability,
}

-- A command of each kind.
pub data Command : Type 0 where
  remote_start_command : String → Option ℤ → Command
  remote_stop_command : ℤ → Command
  reset_command : String → Command
  unlock_connector_command : ℤ → Command
  change_configuration_command : String → String → Command
  get_configuration_command : List String → Command
  trigger_message_command : String → Option ℤ → Command
  change_availability_command : ℤ → String → Command

abbrev pub action_of : Command → String
action_of (remote_start_command t c) = "RemoteStartTransaction"
action_of (remote_stop_command n) = "RemoteStopTransaction"
action_of (reset_command t) = "Reset"
action_of (unlock_connector_command c) = "UnlockConnector"
action_of (change_configuration_command k v) = "ChangeConfiguration"
action_of (get_configuration_command ks) = "GetConfiguration"
action_of (trigger_message_command m c) = "TriggerMessage"
action_of (change_availability_command c t) = "ChangeAvailability"

abbrev pub FitsOption : Option ℤ → Type 0
FitsOption none = Unit
FitsOption (some n) = fits_int64 n ≡ true

-- The numbers of a command are Go ints.
abbrev pub Fits : Command → Type 0
Fits (remote_start_command t c) = FitsOption c
Fits (remote_stop_command n) = fits_int64 n ≡ true
Fits (unlock_connector_command c) = fits_int64 c ≡ true
Fits (trigger_message_command m c) = FitsOption c
Fits (change_availability_command c t) = fits_int64 c ≡ true
Fits _ = Unit

-- What the charge point's parser makes of the payload: the arguments of the command. It refuses a
-- RemoteStartTransaction of an empty tag.
abbrev pub Understood : Command → Bytes → Type 0
Understood (remote_start_command t c) p = parse_remote_start_transaction_request p ≡ (
    if not (t == "")
    then ok (record { id_tag = t; connector_id = c; charging_profile = no_bytes })
    else err (msg "RemoteStartTransaction: idTag is required"))
Understood (remote_stop_command n) p =
    parse_remote_stop_transaction_request p ≡ ok (record { transaction_id = n })
Understood (reset_command t) p = parse_reset_request p ≡ ok (record { reset_type = t })
Understood (unlock_connector_command c) p =
    parse_unlock_connector_request p ≡ ok (record { connector_id = c })
Understood (change_configuration_command k v) p =
    parse_change_configuration_request p ≡ ok (record { key = k; value = v })
Understood (get_configuration_command ks) p =
    parse_get_configuration_request p ≡ ok (record { key = ks })
Understood (trigger_message_command m c) p =
    parse_trigger_message_request p ≡ ok (record { requested_message = m; connector_id = c })
Understood (change_availability_command c t) p =
    parse_change_availability_request p ≡ ok (record { connector_id = c; availability_type = t })

module _ (library : SchemaLibrary) (env : Surroundings) where
  unfoldable pub send : Command → String → Service → Result (Unit {0}) × Service
  send (remote_start_command t c) id s = remote_start library env id t c s
  send (remote_stop_command n) id s = remote_stop library env id n s
  send (reset_command t) id s = reset library env id t s
  send (unlock_connector_command c) id s = unlock_connector library env id c s
  send (change_configuration_command k v) id s = change_configuration library env id k v s
  send (get_configuration_command ks) id s = get_configuration library env id ks s
  send (trigger_message_command m c) id s = trigger_message library env id m c s
  send (change_availability_command c t) id s = change_availability library env id c t s

  -- One frame more: a CALL with the given action and the next id, and a payload as required.
  abbrev pub Sent : String → String → (Bytes → Type 0) → Service → Service → Type 0
  Sent id action Accepts s s' =
      (raw : Bytes) × (payload : Bytes) × (s'.unique_id ≡ 1 + s.unique_id)
      × (s'.published ≡ s.published ++ ((out_topic id, raw, none) ∷ []))
      × (decode raw
          ≡ ok (record {
            message_type_id = call;
            unique_id = env.id_text (1 + s.unique_id);
            action = action;
            payload = payload;
            error_code = "";
            error_description = "";
            error_details = no_bytes;
          }))
      × Accepts payload

  -- How a publication ends when the schema refuses, and when it does not.
  publish-refused :
      (id action : String) (p : Json) (s : Service)
      → (validate library v16 action request (json p) ≡ none)
        ⊎ ((publish library env id action p s).0 ≢ ok tt)
  unfolding publish
  publish-refused id action p s = ground arith

  publish-valid :
      (id action : String) (p : Json) (s : Service) (raw : Bytes)
      → validate library v16 action request (json p) ≡ none
      → encode (build_call (env.id_text (1 + s.unique_id)) action p) ≡ ok raw
      → (publish library env id action p s ≡ (
        ok tt,
        record {
          unique_id = 1 + s.unique_id;
          published = s.published ++ ((out_topic id, raw, none) ∷ []);
        },
      ))
        ⊎ ((publish library env id action p s).0 ≢ ok tt)
  unfolding publish
  publish-valid id action p s raw valid encoded =
      elim (Option-cases (env.publish (out_topic id) raw)) [
        | inr (e, failed) ↦ inr (rw (valid, encoded, failed) (λ same. cc))
        | inl sent ↦ inl (rw (valid, encoded, sent) refl)
      ]

  publish-Sent :
      (id action : String) (p : Json) (s : Service) (Accepts : Bytes → Type 0)
      → action ≢ ""
      → Accepts (json p)
      → (publish library env id action p s).0 ≡ ok tt
      → Sent id action Accepts s (publish library env id action p s).1
  unfolding build_call decode
  publish-Sent id action p s Accepts named accepts done =
      let uid = env.id_text (1 + s.unique_id) in
      let (raw, encoded, decoded) =
        decode-encode (build_call uid action p) (is_call uid action p) (λ _. named) in
      elim (publish-refused id action p s) [
        | inr fails ↦ elim (fails done) [ ]
        | inl valid ↦ elim (publish-valid id action p s raw valid encoded) [
          | inr fails ↦ elim (fails done) [ ]
          | inl sends ↦ rw sends (raw, json p, refl, refl, decoded, accepts)
        ]
      ]

  -- A command behind its guard.
  guarded-Sent :
      (refuses : Bool) (e : Error) (id action : String) (p : Json) (s : Service)
      (Accepts : Bytes → Type 0)
      → action ≢ ""
      → (refuses ≡ false → Accepts (json p))
      → (if refuses then (err e, s) else publish library env id action p s).0 ≡ ok tt
      → Sent id action Accepts s
          (if refuses then (err e, s) else publish library env id action p s).1
  guarded-Sent true e id action p s Accepts named accepts done = cc
  guarded-Sent false e id action p s Accepts named accepts done =
      publish-Sent id action p s Accepts named (accepts refl) done

read_strings-texts : (ks : List String) → read_strings (array (texts ks)) [] ≡ ok ks
unfolding read_strings texts
read_strings-texts [] = refl
read_strings-texts (k ∷ ks) = rw (read_strings-texts ks) refl

module _ (library : SchemaLibrary) (env : Surroundings) where
  -- A command with numbers of 64 bits that answers no error has published exactly one frame more, on
  -- the charge point's out topic: a CALL of its action under the next id, whose payload the charge
  -- point's parser takes for the command, except that it refuses a RemoteStartTransaction of an
  -- empty tag.
  pub send-Understood :
      (c : Command) (id : String) (s : Service)
      → Fits c
      → (send library env c id s).0 ≡ ok tt
      → Sent library env id (action_of c) (Understood c) s (send library env c id s).1
  unfolding send remote_start remote_stop reset unlock_connector change_configuration
      get_configuration trigger_message change_availability read_struct
      parse_remote_start_transaction_request parse_remote_stop_transaction_request
      parse_reset_request parse_unlock_connector_request parse_change_configuration_request
      parse_get_configuration_request parse_trigger_message_request
      parse_change_availability_request texts read_strings
  send-Understood (remote_start_command t none) id s fits done =
      publish-Sent library env id _ _ s _ (λ e. cc) (ground arith) done
  send-Understood (remote_start_command t (some c)) id s fits done =
      publish-Sent library env id _ _ s _ (λ e. cc) (rw fits (ground arith)) done
  send-Understood (remote_stop_command n) id s fits done =
      publish-Sent library env id _ _ s _ (λ e. cc) (rw fits refl) done
  send-Understood (reset_command t) id s fits done =
      guarded-Sent library env _ _ id _ _ s _ (λ e. cc) (λ good. rw good refl) done
  send-Understood (unlock_connector_command c) id s fits done =
      guarded-Sent library env _ _ id _ _ s _ (λ e. cc) (λ good. rw (fits, good) refl) done
  send-Understood (change_configuration_command k v) id s fits done =
      guarded-Sent library env _ _ id _ _ s _ (λ e. cc) (λ good. rw good refl) done
  send-Understood (get_configuration_command []) id s fits done =
      publish-Sent library env id _ _ s _ (λ e. cc) refl done
  send-Understood (get_configuration_command (k ∷ ks)) id s fits done =
      publish-Sent library env id _ _ s _ (λ e. cc) (rw (read_strings-texts ks) refl) done
  send-Understood (trigger_message_command m none) id s fits done =
      guarded-Sent library env _ _ id _ _ s _ (λ e. cc) (λ good. rw good refl) done
  send-Understood (trigger_message_command m (some c)) id s fits done =
      guarded-Sent library env _ _ id _ _ s _ (λ e. cc) (λ good. rw (fits, good) refl) done
  send-Understood (change_availability_command c t) id s fits done =
      guarded-Sent library env _ _ id _ _ s _ (λ e. cc) (λ good. rw (fits, good) refl) done
