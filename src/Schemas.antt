-- ===== src/Schemas.antt =====
-- packages/ocpp-schemas/validator.go: payloads against the embedded OCPP schema files.
-- The embedded files and the JSON Schema compiler (santhosh-tekuri/jsonschema) are parameters.
pub mod Cache
pub mod Tests
use Prim.Native.String.{◌++◌}
use ocpp_simulator.Base.{String, ◌==◌, if◌then◌else◌, ◌≡◌, refl, Option, none, some}
use ocpp_simulator.Base.Assoc.{Assoc, lookup, insert}
use ocpp_simulator.Result.{Error, Result, ok, err, msg, quoted, wrap, json_syntax}
use ocpp_simulator.Json.{Json, Bytes, json, junk}

pub data Version : Type 0 where
  v16 v201 : Version
  other_version : String → Version

pub data Direction : Type 0 where
  request response : Direction

abbrev pub version_text : Version → String
version_text v16 = "1.6"
version_text v201 = "2.0.1"
version_text (other_version s) = s

abbrev pub direction_text : Direction → String
direction_text request = "Request"
direction_text response = "Response"

-- What the validator takes from the embedded files and from the schema compiler.
pub record SchemaLibrary : Type 1 where
  pub Schema : Type 0
  pub read_file : String → Option String
  pub compile : String → String → Result Schema
  pub check : Schema → Json → Option Error

-- fmt.Sprintf("%s/%s/%s", version, action, dir)
pub cache_key : Version → String → Direction → String
cache_key version action dir =
    version_text version ++ ("/" ++ (action ++ ("/" ++ direction_text dir)))

-- the name of the schema file, by direction
abbrev schema_filename : String → Direction → String
schema_filename action request = action
schema_filename action response = action ++ "Response"

-- strings.TrimSuffix
unfoldable trim_suffix : String → String → String
trim_suffix suffix String.[] = String.[]
trim_suffix suffix (String.◌∷◌ c s) =
    let rest = trim_suffix suffix s in
    if String.◌∷◌ c s == suffix then String.[] else String.◌∷◌ c rest

-- SchemaAction
unfoldable schema_action : String → String
unfolding trim_suffix
schema_action filename = trim_suffix "Response" (trim_suffix ".json" filename)

schema_path : Version → String → Direction → Result String
schema_path v16 action dir = ok ("v16/" ++ (schema_filename action dir ++ ".json"))
schema_path v201 action dir = err (msg "ocpp-schemas: v2.0.1 not yet supported")
schema_path (other_version s) action dir = err (quoted "ocpp-schemas: unknown version" s)

module _ (library : SchemaLibrary) where
  open library use {Schema, read_file, compile, check}

  compile_text : String → Option String → Result Schema
  compile_text path none = err (quoted "ocpp-schemas: schema file not found" path)
  compile_text path (some text) = compile path text

  compile_path : Result String → Result Schema
  unfolding compile_text
  compile_path (err e) = err e
  compile_path (ok path) = compile_text path (read_file path)

  -- loadSchema behind a miss of the cache
  pub read_schema : Version → String → Direction → Result Schema
  unfolding schema_path compile_path
  read_schema version action dir = compile_path (schema_path version action dir)

  store_schema : String → Assoc Schema → Result Schema → Result Schema × Assoc Schema
  unfolding insert
  store_schema key cache (err e) = (err e, cache)
  store_schema key cache (ok s) = (ok s, insert key s cache)

  hit_or_load : Option Schema → String → Assoc Schema → Result Schema → Result Schema × Assoc Schema
  unfolding store_schema
  hit_or_load (some s) key cache loaded = (ok s, cache)
  hit_or_load none key cache loaded = store_schema key cache loaded

  -- loadSchema, with the package's `schemaCache` passed through
  pub load_schema : Assoc Schema → Version → String → Direction → Result Schema × Assoc Schema
  unfolding hit_or_load lookup cache_key
  load_schema cache version action dir =
      let key = cache_key version action dir in
      hit_or_load (lookup key cache) key cache (read_schema version action dir)

  check_value : Schema → Bytes → Option Error
  check_value s (junk text) = some (wrap "ocpp-schemas: invalid JSON" json_syntax)
  check_value s (json v) = elim (check s v) [
    | none ↦ none
    | some e ↦ some (wrap "ocpp-schemas: validation failed" e)
  ]

  check_payload : Result Schema → Bytes → Option Error
  unfolding check_value
  check_payload (err e) payload = some e
  check_payload (ok s) payload = check_value s payload

  -- Validate, with the cache passed through; `none` is success
  pub validate_cached :
      Assoc Schema → Version → String → Direction → Bytes → Option Error × Assoc Schema
  unfolding load_schema check_payload
  validate_cached cache version action dir payload =
      let (schema, cache') = load_schema cache version action dir in
      (check_payload schema payload, cache')

  -- Validate as its callers see it: what it answers from an empty cache
  unfoldable pub validate : Version → String → Direction → Bytes → Option Error
  unfolding check_payload read_schema
  validate version action dir payload = check_payload (read_schema version action dir) payload

  -- A payload that passes is JSON.
  pub validate-json :
      (version : Version) (action : String) (dir : Direction) (payload : Bytes)
      → validate version action dir payload ≡ none
      → (v : Json) × (payload ≡ json v)
  unfolding validate
  validate-json version action dir payload e = valid_json (read_schema version action dir) payload e
    where
      valid_json :
          (s : Result Schema) (p : Bytes) → check_payload s p ≡ none → (v : Json) × (p ≡ json v)
      valid_json (err x) p h = cc
      valid_json (ok s) (junk text) h = cc
      valid_json (ok s) (json v) h = (v, refl)
