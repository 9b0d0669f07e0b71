-- ===== src/Json.antt =====
-- JSON values and byte slices (Go's encoding/json), as far as the services use them.
-- A `[]byte` or `json.RawMessage` is the value that its text denotes, or a text that is no JSON.
-- So spacing and the spelling of escapes are not modelled; nothing in the services looks at them.
pub mod Unmarshal
use ocpp_simulator.Base.{ℤ, String, ◌==◌, Bool, List, [], ◌∷◌, if◌then◌else◌}
use ocpp_simulator.Result.{Result, ok, err, json_syntax}

mutual
  pub data Json : Type 0 where
    null : Json
    bool : Bool → Json
    -- a number written as an integer, and any other number by its text
    num : ℤ → Json
    real : String → Json
    str : String → Json
    arr : Items → Json
    obj : Fields → Json

  pub data Items : Type 0 where
    nil : Items
    cons : Json → Items → Items

  pub data Fields : Type 0 where
    end : Fields
    field : String → Json → Fields → Fields

abbrev pub elems : Items → List Json
elems nil = []
elems (cons j js) = j ∷ elems js

abbrev pub members : Fields → List (String × Json)
members end = []
members (field k j fs) = (k, j) ∷ members fs

abbrev pub array : List Json → Json
array xs = arr (items xs)
  where
    items : List Json → Items
    items [] = nil
    items (j ∷ js) = cons j (items js)

abbrev pub object : List (String × Json) → Json
object xs = obj (fields xs)
  where
    fields : List (String × Json) → Fields
    fields [] = end
    fields ((k, j) ∷ js) = field k j (fields js)

pub data Bytes : Type 0 where
  json : Json → Bytes
  junk : String → Bytes

-- A nil slice: no bytes.
abbrev pub no_bytes : Bytes
no_bytes = junk ""

-- json.Marshal of a json.RawMessage: nil gives `null`, and a text that is no JSON is refused.
abbrev pub marshal_raw : Bytes → Result Json
marshal_raw (json j) = ok j
marshal_raw (junk s) = if s == "" then ok null else err json_syntax
