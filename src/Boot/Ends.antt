-- ===== src/Boot/Ends.antt =====
-- How a chain of fallible steps ends: a postcondition for each of its two ends, with a rule for each
-- step.
use ocpp_simulator.Base.{◌≡◌, refl, String, Option, none, some}
use ocpp_simulator.Result.{Error, Result, ok, err, wrap, wrapping, ◌>>=◌}
use ocpp_simulator.Boot.{checked}

abbrev pub Ends {ℓ} : {A : Type ℓ} → (A → Type 0) → (Error → Type 0) → Result A → Type 0
Ends good fault (ok a) = good a
Ends good fault (err e) = fault e

module _ {ℓ κ} {A : Type ℓ} {B : Type κ} (P : A → Type 0) (Q : B → Type 0)
    (F : Error → Type 0) where
  -- A first step, and the rest where it ends well.
  pub Ends->>= :
      (first : Result A) (next : A → Result B)
      → Ends P F first
      → ((a : A) → P a → Ends Q F (next a))
      → Ends Q F (first >>= next)
  Ends->>= (ok a) next p rest = rest a p
  Ends->>= (err e) next p rest = p

pub Ends-wrapping {ℓ} :
    {A : Type ℓ} (P : A → Type 0) (F : Error → Type 0) (s : String) (r : Result A)
    → Ends P (λ e. F (wrap s e)) r
    → Ends P F (wrapping s r)
Ends-wrapping P F s (ok a) h = h
Ends-wrapping P F s (err e) h = h

pub Ends-checked :
    (P : Unit {0} → Type 0) (F : Error → Type 0) (s : String) (o : Option Error)
    → (o ≡ none → P tt)
    → ((e : Error) → o ≡ some e → F (wrap s e))
    → Ends P F (checked s o)
Ends-checked P F s none good fault = good refl
Ends-checked P F s (some e) good fault = fault e refl
