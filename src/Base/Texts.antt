-- ===== src/Base/Texts.antt =====
-- Text: Go's `strings.Split`, `HasPrefix`, `TrimPrefix`, `TrimSuffix` and `ContainsAny`, as far as
-- the services use them. All separators are ASCII, so code points serve for bytes.
use Prim.Native.Nat.{ℕ}
use Prim.Native.Char.{Char, code}
use Prim.Native.String.{String, [], ◌∷◌, ◌++◌}
use mathlib.Core.Path.{◌≡◌, refl}
use mathlib.Core.Logic.{◌≢◌}
use mathlib.Core.Bool.{Bool, true, false, ◌||◌}
use mathlib.Core.List.{List}
use native.Mathlib.Omega.{arith}
use text.Mathlib.TextLemmas.{nil-append, cons-append, append_assoc}
use ocpp_simulator.Base.Tests.{eqb, if◌then◌else◌}

cons_head : Char → List String → List String
cons_head c List.[] = List.◌∷◌ (c ∷ []) List.[]
cons_head c (List.◌∷◌ p ps) = List.◌∷◌ (c ∷ p) ps

-- strings.Split(s, sep), for a one-byte separator
unfoldable pub split : ℕ → String → List String
unfolding cons_head
split sep [] = List.◌∷◌ "" List.[]
split sep (c ∷ s) =
    if eqb (code c) sep then List.◌∷◌ "" (split sep s) else cons_head c (split sep s)

-- strings.ContainsAny(s, chars), the characters by their codes
unfoldable pub contains_any : (ℕ → Bool) → String → Bool
contains_any p [] = false
contains_any p (c ∷ s) = p (code c) || contains_any p s

-- No character of the text has a code that the predicate picks.
abbrev pub Lacks : ℕ → String → Type 0
Lacks sep [] = Unit
Lacks sep (c ∷ s) = (code c ≢ sep) × Lacks sep s

-- A part with no separator is the first part, and the rest is split alone.
pub split-append :
    (sep : ℕ) (part : String) (c : Char) (s : String)
    → Lacks sep part
    → code c ≡ sep
    → split sep (part ++ (c ∷ s)) ≡ List.◌∷◌ part (split sep s)
unfolding split
split-append sep [] c s _ e = rw nil-append (ground arith)
split-append sep (d ∷ part) c s (h, k) e =
    rw cons-append (ground (arith, split-append sep part c s k e))

-- The same, with the separator joined to the part that it ends.
pub split-append_ended :
    (sep : ℕ) (part : String) (c : Char) (s : String)
    → Lacks sep part
    → code c ≡ sep
    → split sep ((part ++ (c ∷ [])) ++ s) ≡ List.◌∷◌ part (split sep s)
split-append_ended sep part c s h e =
    rw (append_assoc, cons-append, nil-append) (split-append sep part c s h e)

-- Without the separator there is one part.
pub split_of_Lacks : (sep : ℕ) (s : String) → Lacks sep s → split sep s ≡ List.◌∷◌ s List.[]
unfolding split
split_of_Lacks sep [] _ = refl
split_of_Lacks sep (c ∷ s) (h, k) = ground (arith, split_of_Lacks sep s k)

-- A text without the picked characters lacks each of them.
pub Lacks-of_contains_any :
    (p : ℕ → Bool) (sep : ℕ) (s : String) → p sep ≡ true → contains_any p s ≡ false → Lacks sep s
unfolding contains_any
Lacks-of_contains_any p sep [] _ _ = tt
Lacks-of_contains_any p sep (c ∷ s) e h =
    (λ q. ground (arith, q), Lacks-of_contains_any p sep s e (ground arith))
