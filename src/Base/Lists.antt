-- ===== src/Base/Lists.antt =====
-- The length of a list as a native number.
use Prim.Native.Nat.{ℕ, suc}
use mathlib.Core.Path.{◌≡◌, refl, ap}
use mathlib.Core.List.{List, [], ◌∷◌, ◌++◌}

abbrev pub length {ℓ} : {A : Type ℓ} → List A → ℕ
length [] = 0
length (x ∷ xs) = suc (length xs)

module _ {ℓ} {A : Type ℓ} where
  pub ++-nil : (xs : List A) → xs ++ [] ≡ xs
  ++-nil [] = refl
  ++-nil (x ∷ xs) = ap (λ (t : List A). x ∷ t) (++-nil xs)

  -- One item at the end, then more.
  pub ++-one : (xs : List A) (x : A) (ys : List A) → (xs ++ (x ∷ [])) ++ ys ≡ xs ++ (x ∷ ys)
  ++-one [] x ys = refl
  ++-one (z ∷ xs) x ys = ap (λ (t : List A). z ∷ t) (++-one xs x ys)
