-- ===== src/Base/Run.antt =====
-- What kernel code can do: return, panic, wait for ever, or trap.
use mathlib.Core.Path.{◌≡◌, refl}

-- The message that `panic` is called with.
pub data Reason : Type 0 where
  interrupts_enabled out_of_memory vmm_init_failure no_exec_address no_rsdp hw_reduced no_madt
        no_hpet :
      Reason
  stack_overflow stack_underflow idt_exhausted io_width cpuid_failure no_hhdm no_memmap mp_missing
        nothing_to_do :
      Reason

-- `spins` is a loop that ends only if another CPU acts; `trap` is an exception of the CPU: a
-- division, or an access through a null pointer.
pub data Run (S A : Type 0) : Type 0 where
  ok : A → S → Run S A
  panics : Reason → Run S A
  spins : Run S A
  trap : Run S A

abbrev pub Cmd : Type 0 → Type 0 → Type 0
Cmd S A = S → Run S A

module _ {S A : Type 0} where
  abbrev pub pure : A → Cmd S A
  pure a s = ok a s

  abbrev pub fail : Reason → Cmd S A
  fail r s = panics r

  abbrev pub gets : (S → A) → Cmd S A
  gets f s = ok (f s) s

abbrev pub modify : {S : Type 0} → (S → S) → Cmd S (Unit {0})
modify f s = ok tt (f s)

module _ {S A B : Type 0} where
  abbrev pub and_then : Run S A → (A → Cmd S B) → Run S B
  and_then (ok a s) f = f a s
  and_then (panics r) f = panics r
  and_then spins f = spins
  and_then trap f = trap

  infixl 5 ◌>>=◌ ◌>>◌
  abbrev pub ◌>>=◌ : Cmd S A → (A → Cmd S B) → Cmd S B
  ◌>>=◌ m f s = and_then (m s) f

  abbrev pub ◌>>◌ : Cmd S A → Cmd S B → Cmd S B
  m >> n = m >>= λ _. n

-- A command on a part of the state.
abbrev pub zoom : {S T A : Type 0} → (S → T) → (T → S → S) → Cmd T A → Cmd S A
zoom part put m s = elim (m (part s)) [
  | ok a t ↦ ok a (put t s)
  | panics r ↦ panics r
  | spins ↦ spins
  | trap ↦ trap
]

module _ {S A B : Type 0} where
  and_then-eq-ok :
      (r : Run S A) (f : A → Cmd S B) {b : B} {u : S}
      → and_then r f ≡ ok b u
      → (a : A) × (t : S) × (r ≡ ok a t) × (f a t ≡ ok b u)
  and_then-eq-ok (ok a t) f e = (a, t, refl, e)
  and_then-eq-ok (panics _) f e = absurd (cc)
  and_then-eq-ok spins f e = absurd (cc)
  and_then-eq-ok trap f e = absurd (cc)

  pub >>=-ok :
      (m : Cmd S A) (f : A → Cmd S B) {s t : S} {a : A} → m s ≡ ok a t → (m >>= f) s ≡ f a t
  >>=-ok m f e = rw e

  -- Inversion of a command that returned.
  pub >>=-eq-ok :
      (m : Cmd S A) (f : A → Cmd S B) {s : S} {b : B} {u : S}
      → (m >>= f) s ≡ ok b u
      → (a : A) × (t : S) × (m s ≡ ok a t) × (f a t ≡ ok b u)
  >>=-eq-ok m f {s} e = and_then-eq-ok (m s) f e

module _ {S T A : Type 0} (part : S → T) (put : T → S → S) (m : Cmd T A) {s : S} where
  pub zoom-ok : {a : A} {t : T} → m (part s) ≡ ok a t → zoom part put m s ≡ ok a (put t s)
  zoom-ok e = rw (zoom, e) refl

  pub zoom-panics : {r : Reason} → m (part s) ≡ panics r → zoom part put m s ≡ panics r
  zoom-panics e = rw (zoom, e) refl
