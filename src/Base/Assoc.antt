-- ===== src/Base/Assoc.antt =====
-- Go's `map[string]V` as an association list: a key is held at most once, by the way the
-- operations write it.
use Prim.Native.String.{String}
use mathlib.Core.Path.{◌≡◌, refl}
use mathlib.Core.Logic.{inl, inr}
use mathlib.Core.Option.{Option, none, some}
use mathlib.Core.List.{List, [], ◌∷◌}
use native.Mathlib.Omega.{arith}
use text.Mathlib.Text.{◌==◌}
use text.Mathlib.TextEquality.{eq_iff}
use text.Mathlib.TextPositions.{eq_refl}
use ocpp_simulator.Base.Tests.{if◌then◌else◌, Bool-cases}

abbrev pub Assoc {ℓ} : Type ℓ → Type ℓ
Assoc V = List (String × V)

module _ {ℓ} {V : Type ℓ} where
  -- v, ok := m[k]
  unfoldable pub lookup : String → Assoc V → Option V
  lookup k [] = none
  lookup k ((j, v) ∷ m) = if j == k then some v else lookup k m

  -- delete(m, k)
  unfoldable pub remove : String → Assoc V → Assoc V
  remove k [] = []
  remove k ((j, v) ∷ m) = let rest = remove k m in if j == k then rest else (j, v) ∷ rest

  -- m[k] = v
  unfoldable pub insert : String → V → Assoc V → Assoc V
  unfolding remove
  insert k v m = (k, v) ∷ remove k m

  pub lookup-remove :
      (k j : String) (m : Assoc V) → lookup j (remove k m) ≡ (if k == j then none else lookup j m)
  unfolding lookup remove
  lookup-remove k j [] = ground arith
  lookup-remove k j ((i, v) ∷ m) =
      ground (arith, lookup-remove k j m, eq_iff i k, eq_iff i j, eq_iff k j)

  pub lookup-insert :
      (k j : String) (v : V) (m : Assoc V)
      → lookup j (insert k v m) ≡ (if k == j then some v else lookup j m)
  unfolding lookup insert
  lookup-insert k j v m = ground (arith, lookup-remove k j m)

  -- Each key is held once.
  abbrev pub Keyed : Assoc V → Type ℓ
  Keyed [] = Unit
  Keyed ((k, v) ∷ m) = (lookup k m ≡ none) × Keyed m

  pub remove-absent : (k : String) (m : Assoc V) → lookup k m ≡ none → remove k m ≡ m
  unfolding remove lookup
  remove-absent k [] absent = refl
  remove-absent k ((j, v) ∷ m) absent = ground (arith, remove-absent k m)

  pub Keyed-remove : (k : String) (m : Assoc V) → Keyed m → Keyed (remove k m)
  unfolding remove
  Keyed-remove k [] h = tt
  Keyed-remove k ((j, v) ∷ m) (absent, h) = elim (Bool-cases (j == k)) [
    | inl same ↦ rw same (Keyed-remove k m h)
    | inr other ↦ rw other (ground (arith, lookup-remove k j m), Keyed-remove k m h)
  ]

  pub Keyed-insert : (k : String) (v : V) (m : Assoc V) → Keyed m → Keyed (insert k v m)
  unfolding insert
  Keyed-insert k v m h = (ground (arith, lookup-remove k k m, eq_refl k), Keyed-remove k m h)

pub ruleset assoc_laws = (lookup-remove, lookup-insert)
