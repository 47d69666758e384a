-- ===== src/Base/Outcome.antt =====
-- What a command comes to: it returns, so that a postcondition holds, or panics for an allowed
-- reason. It neither spins nor traps.
use mathlib.Core.Path.{◌≡◌, refl, sym, subst}
use cynix.Base.Run.{Run, Reason, Cmd, ok, panics, and_then, zoom, zoom-ok, zoom-panics}

pub data Outcome {S A : Type 0} (Fails : Reason → Type 0) (P : A → S → Type 0) (r : Run S A)
    : Type 0 where
  returned : (a : A) (s : S) → r ≡ ok a s → P a s → Outcome Fails P r
  failed : (reason : Reason) → Fails reason → r ≡ panics reason → Outcome Fails P r

module _ {S A B : Type 0} {Fails : Reason → Type 0} {P : A → S → Type 0} {Q : B → S → Type 0} where
  pub Outcome-and_then :
      {r : Run S A} {f : A → Cmd S B}
      → Outcome Fails P r
      → ((a : A) (s : S) → P a s → Outcome Fails Q (f a s))
      → Outcome Fails Q (and_then r f)
  Outcome-and_then {f} (returned a s e p) next =
      subst (λ r. Outcome Fails Q (and_then r f)) (sym e) (next a s p)
  Outcome-and_then (failed reason allowed e) next = failed reason allowed (rw e refl)

module _ {S A B : Type 0} {Fails : Reason → Type 0} {Q : B → S → Type 0} where
  -- A command whose result is known
  pub Outcome-after :
      (f : A → Cmd S B) {r : Run S A} {a : A} {s : S}
      → r ≡ ok a s
      → Outcome Fails Q (f a s)
      → Outcome Fails Q (and_then r f)
  Outcome-after f e next = subst (λ r. Outcome Fails Q (and_then r f)) (sym e) next

module _ {S A B X : Type 0} {Fails : Reason → Type 0} {Q : B → S → Type 0} where
  -- The state is known up to a part of it.
  pub Outcome-then_at :
      (f : A → Cmd S B) {r : Run S A} {at : X → S} {P : A → X → Type 0}
      → Outcome Fails (λ a s. (x : X) × (s ≡ at x) × P a x) r
      → ((a : A) (x : X) → P a x → Outcome Fails Q (f a (at x)))
      → Outcome Fails Q (and_then r f)
  Outcome-then_at f outcome next =
      Outcome-and_then outcome
        λ a s (x, e, p). subst (λ s. Outcome Fails Q (f a s)) (sym e) (next a x p)

module _ {S A : Type 0} {Fails Fails' : Reason → Type 0} {P Q : A → S → Type 0} where
  pub Outcome-weaken :
      {r : Run S A}
      → ((reason : Reason) → Fails reason → Fails' reason)
      → ((a : A) (s : S) → P a s → Q a s)
      → Outcome Fails P r
      → Outcome Fails' Q r
  Outcome-weaken fails holds (returned a s e p) = returned a s e (holds a s p)
  Outcome-weaken fails holds (failed reason allowed e) = failed reason (fails reason allowed) e

module _ {S T A : Type 0} {Fails : Reason → Type 0} {P : A → T → Type 0} (part : S → T)
    (put : T → S → S) where
  -- A command on a part changes that part.
  pub Outcome-zoom :
      (m : Cmd T A) {s : S}
      → Outcome Fails P (m (part s))
      → Outcome Fails (λ a s'. (t : T) × (s' ≡ put t s) × P a t) (zoom part put m s)
  Outcome-zoom m {s} (returned a t e p) = returned a (put t s) (zoom-ok part put m e) (t, refl, p)
  Outcome-zoom m (failed reason allowed e) = failed reason allowed (zoom-panics part put m e)
