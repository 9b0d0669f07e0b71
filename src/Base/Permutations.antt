-- ===== src/Base/Permutations.antt =====
-- What permuted lists share.
use ocpp_simulator.Base.{◌≡◌, refl, sym, subst, ap, ◌∙◌, List, [], ◌∷◌, length, All, suc}
use mathlib.Core.Logic.{∥∥₁_elim}
use mathlib.Core.List.{Perm, Permᴰ}
use native.Mathlib.Nat.{ℕ_set}

module _ {A : Type 0} where
  All-prop : (P : A → Type 0) → ((x : A) → IsProp (P x)) → (xs : List A) → IsProp (All P xs)
  All-prop P prop [] = hlevel
  All-prop P prop (x ∷ xs) = hlevel (prop x, All-prop P prop xs)

  All-Permᴰ : {xs ys : List A} (P : A → Type 0) → Permᴰ xs ys → All P ys → All P xs
  All-Permᴰ P Permᴰ.nil h = tt
  All-Permᴰ P (Permᴰ.cons e d) (p, h) = (subst P (sym e) p, All-Permᴰ P d h)
  All-Permᴰ P (Permᴰ.swap e₁ e₂) (p, (q, h)) = (subst P (sym e₁) q, (subst P (sym e₂) p, h))
  All-Permᴰ P (Permᴰ.trans d₁ d₂) h = All-Permᴰ P d₁ (All-Permᴰ P d₂ h)

  length-Permᴰ : {xs ys : List A} → Permᴰ xs ys → length xs ≡ length ys
  length-Permᴰ Permᴰ.nil = refl
  length-Permᴰ (Permᴰ.cons e d) = ap suc (length-Permᴰ d)
  length-Permᴰ (Permᴰ.swap e₁ e₂) = refl
  length-Permᴰ (Permᴰ.trans d₁ d₂) = length-Permᴰ d₁ ∙ length-Permᴰ d₂

  pub All-Perm :
      (P : A → Type 0)
      → ((x : A) → IsProp (P x))
      → (xs ys : List A) → Perm xs ys
      → All P ys
      → All P xs
  All-Perm P prop xs ys p h = ∥∥₁_elim p (All-prop P prop xs) (λ d. All-Permᴰ P d h)

  pub length-Perm : (xs ys : List A) → Perm xs ys → length xs ≡ length ys
  length-Perm xs ys p = ∥∥₁_elim p (ℕ_set (length xs) (length ys)) (λ d. length-Permᴰ d)
