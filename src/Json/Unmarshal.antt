-- ===== src/Json/Unmarshal.antt =====
-- json.Unmarshal into the types that the services decode: string, int, *int, RawMessage,
-- []RawMessage and structs of these. A variable holds its old value when the text says `null`.
pub mod Keeps
use Prim.Native.Char.{code}
use ocpp_simulator.Base.{
  ℕ, ◌-◌, ℤ, String, Bool, true, false, ◌&&◌, List, [], ◌∷◌, Option, none, some, leb, eqb,
  fits_int64, if◌then◌else◌,
}
use ocpp_simulator.Result.{Result, ok, err, json_syntax, json_type, ◌>>=◌}
use ocpp_simulator.Json.{Json, null, num, str, arr, obj, Bytes, json, junk, elems, members}

-- json.Unmarshal(data, &v)
abbrev pub unmarshal {ℓ} : {A : Type ℓ} → (Json → A → Result A) → Bytes → A → Result A
unmarshal read (json j) old = read j old
unmarshal read (junk s) old = err json_syntax

abbrev pub read_string : Json → String → Result String
read_string null old = ok old
read_string (str s) old = ok s
read_string _ old = err json_type

abbrev pub read_int : Json → ℤ → Result ℤ
read_int null old = ok old
read_int (num n) old = if fits_int64 n then ok n else err json_type
read_int _ old = err json_type

abbrev pub read_int_ptr : Json → Option ℤ → Result (Option ℤ)
read_int_ptr null old = ok none
read_int_ptr (num n) old = if fits_int64 n then ok (some n) else err json_type
read_int_ptr _ old = err json_type

abbrev pub read_raw : Json → Bytes → Result Bytes
read_raw j old = ok (json j)

abbrev pub read_raws : Json → List Json → Result (List Json)
read_raws null old = ok []
read_raws (arr js) old = ok (elems js)
read_raws _ old = err json_type

-- Keys of an object are matched to field names up to case: 'ſ' (U+017F) folds to 'S' and the
-- Kelvin sign (U+212A) to 'K', so a key of other letters outside ASCII matches no field.
abbrev fold_rune : ℕ → ℕ
fold_rune c =
    if leb b'a' c && leb c b'z'
    then c - 32
    else if eqb c 0x17f
    then b'S'
    else if eqb c 0x212a
    then b'K'
    else c

unfoldable pub same_fold : String → String → Bool
same_fold String.[] String.[] = true
same_fold String.[] (String.◌∷◌ c s) = false
same_fold (String.◌∷◌ c s) String.[] = false
same_fold (String.◌∷◌ c s) (String.◌∷◌ d t) =
    eqb (fold_rune (code c)) (fold_rune (code d)) && same_fold s t

-- A field of the struct: its key, and how a value is read into it.
abbrev pub Setter {ℓ} : Type ℓ → Type ℓ
Setter R = String × (Json → R → Result R)

module _ {ℓ} {R : Type ℓ} where
  set_field : List (Setter R) → String → Json → R → Result R
  unfolding same_fold
  set_field [] key j r = ok r
  set_field ((name, read) ∷ fs) key j r =
      if same_fold key name then read j r else set_field fs key j r

  set_fields : List (Setter R) → List (String × Json) → R → Result R
  unfolding set_field
  set_fields fs [] r = ok r
  set_fields fs ((key, j) ∷ rest) r = set_field fs key j r >>= set_fields fs rest

  -- A later key overwrites an earlier one, and a value of the wrong type anywhere is an error.
  unfoldable pub read_struct : List (Setter R) → Json → R → Result R
  unfolding set_fields
  read_struct fs null r = ok r
  read_struct fs (obj ms) r = set_fields fs (members ms) r
  read_struct fs _ r = err json_type
