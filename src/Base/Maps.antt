-- ===== src/Base/Maps.antt =====
-- Memory and tables as functions of an address or an index.
use Prim.Native.Nat.{ℕ}
use mathlib.Core.Path.{◌≡◌, sym, subst}
use mathlib.Core.Logic.{◌≢◌}
use native.Mathlib.Omega.{arith}
use native.Mathlib.Decide.{ℕ_discrete}
use cynix.Base.Tests.{◌==◌, if◌then◌else◌}

abbrev pub update {ℓ} : {A : Type ℓ} → (ℕ → A) → ℕ → A → ℕ → A
update f i v j = if i == j then v else f j

pub update_self {ℓ} : {A : Type ℓ} (f : ℕ → A) (i : ℕ) (v : A) → update f i v i ≡ v
update_self f i v = ground arith

pub update_ne {ℓ} : {A : Type ℓ} (f : ℕ → A) {i j : ℕ} (v : A) → i ≢ j → update f i v j ≡ f j
update_ne f v h = ground arith

-- A property of a map at each key, after an update, and of two maps updated at the same key
pub update_all {ℓ ℓ'} :
    {A : Type ℓ} (P : ℕ → A → Type ℓ') (f : ℕ → A) (i : ℕ) (v : A)
    → P i v
    → ((j : ℕ) → i ≢ j → P j (f j))
    → (j : ℕ) → P j (update f i v j)
update_all P f i v new old j = elim (ℕ_discrete i j) [
  | yes e ↦ subst (λ k. P k (update f i v k)) e (subst (P i) (sym (update_self f i v)) new)
  | no ne ↦ subst (P j) (sym (update_ne f v ne)) (old j ne)
]

pub update_both {ℓ ℓ' ℓ''} :
    {A : Type ℓ} {B : Type ℓ'} (P : ℕ → A → B → Type ℓ'') (f : ℕ → A) (g : ℕ → B) (i : ℕ) (v : A)
    (w : B)
    → P i v w
    → ((j : ℕ) → i ≢ j → P j (f j) (g j))
    → (j : ℕ) → P j (update f i v j) (update g i w j)
update_both P f g i v w new old =
    update_all (λ j a. P j a (update g i w j)) f i v (subst (P i v) (sym (update_self g i w)) new)
      (λ j ne. subst (P j (f j)) (sym (update_ne g w ne)) (old j ne))
