-- ===== src/Json/Unmarshal/Keeps.antt =====
-- What every field of a struct keeps, decoding the struct keeps.
use ocpp_simulator.Base.{String, ◌≡◌, subst, List, [], ◌∷◌, All, Bool-cases, inl, inr}
use ocpp_simulator.Result.{ok}
use ocpp_simulator.Result.Laws.{>>=-eq-ok, ok_inj}
use ocpp_simulator.Json.{Json, null, obj, members}
use ocpp_simulator.Json.Unmarshal.{Setter, same_fold, set_field, set_fields, read_struct}

module _ {ℓ κ} {R : Type ℓ} (P : R → Type κ) where
  abbrev pub KeepsField : Setter R → Type (ℓ ⊔ κ)
  KeepsField f = (j : Json) (r r' : R) → P r → f.1 j r ≡ ok r' → P r'

  set_field-keeps :
      (fs : List (Setter R)) (key : String) (j : Json) (r r' : R)
      → All KeepsField fs
      → P r
      → set_field fs key j r ≡ ok r'
      → P r'
  unfolding set_field
  set_field-keeps [] key j r r' _ h e = subst P (ok_inj e) h
  set_field-keeps ((name, read) ∷ fs) key j r r' (k, ks) h e =
      elim (Bool-cases (same_fold key name)) [
        | inl hit ↦ k j r r' h (rw hit at e)
        | inr miss ↦ set_field-keeps fs key j r r' ks h (rw miss at e)
      ]

  set_fields-keeps :
      (fs : List (Setter R)) (ms : List (String × Json)) (r r' : R)
      → All KeepsField fs
      → P r
      → set_fields fs ms r ≡ ok r'
      → P r'
  unfolding set_fields
  set_fields-keeps fs [] r r' ks h e = subst P (ok_inj e) h
  set_fields-keeps fs ((key, j) ∷ ms) r r' ks h e =
      let (s, first, rest) = >>=-eq-ok (set_field fs key j r) _ e in
      set_fields-keeps fs ms s r' ks (set_field-keeps fs key j r s ks h first) rest

  pub read_struct-keeps :
      (fs : List (Setter R)) (j : Json) (r r' : R)
      → All KeepsField fs
      → P r
      → read_struct fs j r ≡ ok r'
      → P r'
  unfolding read_struct
  read_struct-keeps fs null r r' ks h e = subst P (ok_inj e) h
  read_struct-keeps fs (obj ms) r r' ks h e = set_fields-keeps fs (members ms) r r' ks h e
  read_struct-keeps fs _ r r' ks h e = cc
