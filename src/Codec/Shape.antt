-- ===== src/Codec/Shape.antt =====
-- What decoding accepts: only frames of a known type with the number of elements of that type, and
-- only envelopes whose other parts are empty.
use ocpp_simulator.Base.{
  ℕ, ◌+◌, ◌≡◌, refl, String, List, [], ◌∷◌, length, ℤ, pos, ◌==ℤ◌, ==ℤ_iff, arith, Bool-cases, inl,
  inr, subst, if◌then◌else◌,
}
use ocpp_simulator.Result.{ok, wrapping}
use ocpp_simulator.Result.Laws.{>>=-eq-ok, ok_inj}
use ocpp_simulator.Json.{Json, null, Items, Bytes, json, arr, elems}
use ocpp_simulator.Json.Unmarshal.{read_string, read_int}
use ocpp_simulator.Message.{Message, empty_message, call, call_result, call_error}
use ocpp_simulator.Codec.{
  decode, decode_frame, decode_body, decode_call, decode_result, decode_error,
}

-- An envelope of one of the three types that holds nothing but the parts of its type.
pub data WellFormed : Message → Type 0 where
  is_call :
      (u a : String) (p : Json)
      → WellFormed (record empty_message {
        message_type_id = call;
        unique_id = u;
        action = a;
        payload = json p;
      })
  is_result :
      (u : String) (p : Json)
      → WellFormed
          (record empty_message { message_type_id = call_result; unique_id = u; payload = json p })
  is_error :
      (u c d : String) (x : Json)
      → WellFormed (record empty_message {
        message_type_id = call_error;
        unique_id = u;
        error_code = c;
        error_description = d;
        error_details = json x;
      })

-- The number of elements of a frame, by message type.
abbrev pub arity : ℤ → ℕ
arity t = if t ==ℤ call then 4 else if t ==ℤ call_result then 3 else 5

abbrev header : ℤ → String → Message
header t u = record empty_message { message_type_id = t; unique_id = u }

-- What decoding guarantees of the envelope and of the elements behind the first two.
abbrev Accepted : List Json → Message → Type 0
Accepted rest m = WellFormed m × (2 + length rest ≡ arity m.message_type_id)

module _ (u : String) (m : Message) where
  decode_call-Accepted :
      (rest : List Json) → decode_call (header call u) rest ≡ ok m → Accepted rest m
  unfolding decode_call
  decode_call-Accepted (a ∷ p ∷ []) e =
      let (_, read, same) = >>=-eq-ok (wrapping "invalid action" (read_string a "")) _ e in
      subst (Accepted (a ∷ p ∷ [])) (ok_inj same) (is_call u _ p, refl)
  decode_call-Accepted [] e = cc
  decode_call-Accepted _ e = cc

  decode_result-Accepted :
      (rest : List Json) → decode_result (header call_result u) rest ≡ ok m → Accepted rest m
  unfolding decode_result
  decode_result-Accepted (p ∷ []) e = subst (Accepted (p ∷ [])) (ok_inj e) (is_result u p, refl)
  decode_result-Accepted _ e = cc

  decode_error-Accepted :
      (rest : List Json) → decode_error (header call_error u) rest ≡ ok m → Accepted rest m
  unfolding decode_error
  decode_error-Accepted (c ∷ d ∷ x ∷ []) e =
      let (_, _, rest) = >>=-eq-ok (wrapping "invalid error code" (read_string c "")) _ e in
      let (_, _, same) =
        >>=-eq-ok (wrapping "invalid error description" (read_string d "")) _ rest in
      subst (Accepted (c ∷ d ∷ x ∷ [])) (ok_inj same) (is_error u _ _ x, refl)
  decode_error-Accepted _ e = cc

  decode_body-Accepted :
      (t : ℤ) (rest : List Json) → decode_body (header t u) rest ≡ ok m → Accepted rest m
  unfolding decode_body
  decode_body-Accepted t rest e = elim (Bool-cases (t ==ℤ call)) [
    | inl is ↦ decode_call-Accepted rest (rw ((==ℤ_iff t call).0 is) at e)
    | inr not_call ↦ elim (Bool-cases (t ==ℤ call_result)) [
      | inl is ↦ decode_result-Accepted rest (rw ((==ℤ_iff t call_result).0 is) at e)
      | inr not_result ↦ elim (Bool-cases (t ==ℤ call_error)) [
        | inl is ↦ decode_error-Accepted rest (rw ((==ℤ_iff t call_error).0 is) at e)
        | inr not_error ↦ absurd (ground arith)
      ]
    ]
  ]

decode_frame-Accepted :
    (js : List Json) (m : Message)
    → decode_frame js ≡ ok m
    → WellFormed m × (length js ≡ arity m.message_type_id)
unfolding decode_frame
decode_frame-Accepted (t ∷ u ∷ rest) m e =
    let (type_id, _, e₁) =
      >>=-eq-ok (wrapping "invalid message type id" (read_int t (pos 0))) _ e in
    let (unique_id, _, e₂) = >>=-eq-ok (wrapping "invalid unique id" (read_string u "")) _ e₁ in
    let (shape, size) = decode_body-Accepted unique_id m type_id rest e₂ in
    (shape, omega (arith, size))
decode_frame-Accepted [] m e = cc
decode_frame-Accepted _ m e = cc

-- Only frames of the arity of their type are accepted, and the envelope is well formed.
pub decode-Accepted :
    (raw : Bytes) (m : Message)
    → decode raw ≡ ok m
    → WellFormed m
      × (js : Items) × (raw ≡ json (arr js))
      × (length (elems js) ≡ arity m.message_type_id)
unfolding decode
decode-Accepted (json (arr js)) m e =
    let (shape, size) = decode_frame-Accepted (elems js) m e in (shape, js, refl, size)
decode-Accepted (json null) m e = cc
decode-Accepted _ m e = cc

pub decode-WellFormed : (raw : Bytes) (m : Message) → decode raw ≡ ok m → WellFormed m
decode-WellFormed raw m e = (decode-Accepted raw m e).0
