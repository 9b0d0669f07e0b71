-- ===== src/Processor/CoreClient/Payload.antt =====
-- A payload that corePayload takes from a response is JSON.
use ocpp_simulator.Base.{◌≡◌, refl, subst, [], ◌∷◌, eq_iff, inl, inr}
use ocpp_simulator.Result.{Result, ok, err}
use ocpp_simulator.Result.Laws.{Result-cases, ok_inj}
use ocpp_simulator.Json.{Json, Bytes, json, junk, no_bytes}
use ocpp_simulator.Json.Unmarshal.{read_raw}
use ocpp_simulator.Json.Unmarshal.Keeps.{read_struct-keeps}
use ocpp_simulator.Processor.CoreClient.{envelope_payload, payload_or_error, core_payload}

-- A result that is an error or JSON.
abbrev pub IsJsonResult : Result Bytes → Type 0
IsJsonResult (err e) = Unit
IsJsonResult (ok p) = (j : Json) × (p ≡ json j)

abbrev IsReceived : Bytes → Type 0
IsReceived (json j) = Unit
IsReceived (junk s) = s ≡ ""

envelope_payload-IsReceived : (b p : Bytes) → envelope_payload b ≡ ok p → IsReceived p
envelope_payload-IsReceived (junk s) p e = cc
envelope_payload-IsReceived (json j) p e =
    read_struct-keeps IsReceived (("payload", read_raw) ∷ []) j no_bytes p
      (λ v r r' _ same. subst IsReceived (ok_inj same) tt, tt) refl e

payload-IsJsonResult : (p : Bytes) → IsReceived p → IsJsonResult (payload_or_error (ok p))
unfolding payload_or_error
payload-IsJsonResult (json j) h = (j, refl)
payload-IsJsonResult (junk s) h = rw ((eq_iff s "").1 h) tt

pub core_payload-IsJsonResult : (b : Bytes) → IsJsonResult (core_payload b)
unfolding core_payload payload_or_error
core_payload-IsJsonResult b = elim (Result-cases (envelope_payload b)) [
  | inl (e, refused) ↦ rw (refused, payload_or_error) tt
  | inr (p, found) ↦ rw found (payload-IsJsonResult p (envelope_payload-IsReceived b p found))
]
