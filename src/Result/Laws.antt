-- ===== src/Result/Laws.antt =====
-- Inversion of a chain of fallible steps.
use ocpp_simulator.Base.{◌≡◌, refl, ◌⊎◌, inl, inr}
use ocpp_simulator.Result.{Error, Result, ok, err, ◌>>=◌}

pub Result-cases {ℓ} :
    {A : Type ℓ} (r : Result A) → ((e : Error) × (r ≡ err e)) ⊎ ((a : A) × (r ≡ ok a))
Result-cases (err e) = inl (e, refl)
Result-cases (ok a) = inr (a, refl)

-- A chain that ends well: what its first step gave, and the rest.
pub >>=-eq-ok {ℓ κ} :
    {A : Type ℓ} {B : Type κ} {end : B} (first : Result A) (next : A → Result B)
    → (first >>= next) ≡ ok end
    → (got : A) × (first ≡ ok got) × (next got ≡ ok end)
>>=-eq-ok (err e) next ends = cc
>>=-eq-ok (ok got) next ends = (got, refl, ends)

pub ok_inj {ℓ} : {A : Type ℓ} {a b : A} → ok a ≡ ok b → a ≡ b
ok_inj e = cc
