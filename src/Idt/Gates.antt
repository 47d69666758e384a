-- ===== src/Idt/Gates.antt =====
-- The gates that `isr_init` leaves.
use cynix.Base.{
  ℕ, zero, suc, ◌+◌, ◌*◌, ◌%◌, ◌^◌, ◌≤◌, ◌<◌, ◌≡◌, refl, fun_ext, subst, sym, ap, ◌∙◌, ◌≢◌, false,
  Option, some, leb, ltb, ◌&&◌, ◌==◌, if◌then◌else◌, arith, update, update_self,
}
use cynix.Base.Run.{Cmd, ok, modify, ◌>>=◌, ◌>>◌, >>=-ok}
use cynix.Spinlock.{spinlock_acquire, spinlock_release}
use cynix.Gdt.{gdt_kernel_code_sel}
use cynix.Idt.{
  IdtDescriptor, Handler, isr_generic_exception_handler, isr_abort_handler, Idt, cpu_abort_ist,
  gate, idt_set_handler, idt_allocate_vector, set_entry, set_vectors, isr_init,
}

-- The address that the processor jumps to.
abbrev pub target : IdtDescriptor → ℕ
target d = d.base_low16 + d.base_mid16 * 2 ^ 16 + d.base_high32 * 2 ^ 32

-- An interrupt through the gate runs `isr` on stack `ist` with interrupts off: 0x8e is a present
-- 64-bit interrupt gate for privilege level 0.
pub record Leads (d : IdtDescriptor) (isr ist : ℕ) : Type 0 where
  pub address : target d ≡ isr
  pub in_kernel : d.selector ≡ gdt_kernel_code_sel
  pub on_stack : d.ist ≡ ist
  pub kind : d.flags ≡ 0x8e

pub gate-Leads : (isr ist : ℕ) → isr < 2 ^ 64 → Leads (gate isr ist 0x8e) isr ist
unfolding gate
gate-Leads isr ist lt = record {
  address = omega arith;
  in_kernel = refl;
  on_stack = refl;
  kind = refl;
}

-- The entries `i` to `i + n - 1` of `f` replaced by those of `g`.
abbrev filled : {A : Type 0} → (f g : ℕ → A) → (i n : ℕ) → ℕ → A
filled f g i n j = if leb i j && ltb j (i + n) then g j else f j

module _ {A : Type 0} (f g : ℕ → A) (i : ℕ) where
  filled-zero : f ≡ filled f g i 0
  filled-zero = fun_ext (λ j. ground arith)

  filled-suc : (n : ℕ) → filled (update f i (g i)) g (i + 1) n ≡ filled f g i (suc n)
  filled-suc n = fun_ext (λ j. ground arith)

module _ (isr_thunks : ℕ → ℕ) where
  abbrev thunk_gate : ℕ → IdtDescriptor
  thunk_gate j = gate (isr_thunks j) 0 0x8e

  abbrev generic : ℕ → Option Handler
  generic j = some isr_generic_exception_handler

  abbrev with_tables : Idt → (ℕ → IdtDescriptor) → (ℕ → Option Handler) → Idt
  with_tables s gates handlers = record s { idt = gates; isr_handler_table = handlers }

  abbrev set_up_to : Idt → (i n : ℕ) → Idt
  set_up_to s i n =
      with_tables s (filled s.idt thunk_gate i n) (filled s.isr_handler_table generic i n)

  set_vectors_lem : (i n : ℕ) (s : Idt) → set_vectors isr_thunks i n s ≡ ok tt (set_up_to s i n)
  unfolding set_vectors idt_set_handler set_entry
  set_vectors_lem i zero s =
      ap (λ (t : ℕ → IdtDescriptor). ok tt (with_tables s t s.isr_handler_table))
        (filled-zero s.idt thunk_gate i)
      ∙ ap (λ (t : ℕ → Option Handler). ok tt (with_tables s (filled s.idt thunk_gate i 0) t))
          (filled-zero s.isr_handler_table generic i)
  set_vectors_lem i (suc n) s =
      set_vectors_lem (i + 1) n
        (with_tables s (update s.idt i (thunk_gate i)) (update s.isr_handler_table i (generic i)))
      ∙ ap
          (λ (t : ℕ → IdtDescriptor).
            ok tt (
              with_tables s t
                (filled (update s.isr_handler_table i (generic i)) generic (i + 1) n)))
          (filled-suc s.idt thunk_gate i n)
      ∙ ap (λ (t : ℕ → Option Handler). ok tt (with_tables s (filled s.idt thunk_gate i (suc n)) t))
          (filled-suc s.isr_handler_table generic i n)

  -- Every vector has a gate to its thunk; the abort vector alone has a stack of its own.
  pub record IsSetUp (s : Idt) (abort : ℕ) : Type 0 where
    pub abort_vector : s.isr_abort_vector ≡ abort
    pub abort_gate : Leads (s.idt abort) (isr_thunks abort) cpu_abort_ist
    pub abort_handler : s.isr_handler_table abort ≡ some isr_abort_handler
    pub gates : (v : ℕ) → v < 256 → v ≢ abort → Leads (s.idt v) (isr_thunks v) 0
    pub handlers :
        (v : ℕ) → v < 256 → v ≢ abort → s.isr_handler_table v ≡ some isr_generic_exception_handler
    pub next : s.idt_free_vector ≡ abort + 1

  module _ (s : Idt) (thunks : (v : ℕ) → isr_thunks v < 2 ^ 64) (off : s.interrupts ≡ false)
      (free : s.idt_lock ≡ false) (from : 32 ≤ s.idt_free_vector)
      (left : s.idt_free_vector < 0xf0) where
    abbrev vector : ℕ
    vector = s.idt_free_vector

    abbrev both : Idt
    both = set_up_to (set_up_to s 0 32) 32 224

    abbrev final : Idt
    final = record s {
      idt = update both.idt vector (gate (isr_thunks vector) cpu_abort_ist 0x8e);
      isr_handler_table = update both.isr_handler_table vector (some isr_abort_handler);
      idt_free_vector = vector + 1;
      isr_abort_vector = vector;
      idt_lock = false;
    }

    abbrev abort_entry : Cmd Idt (Unit {0})
    abort_entry = do
      v ← idt_allocate_vector
      modify (λ t. record t { isr_abort_vector = v })
      idt_set_handler v (isr_thunks v) cpu_abort_ist 0x8e
      set_entry v isr_abort_handler

    enters_abort : abort_entry both ≡ ok tt final
    unfolding idt_allocate_vector idt_set_handler set_entry spinlock_acquire spinlock_release
    enters_abort =
        let room : (vector == 0xf0) ≡ false = ground arith in
        let fits : (vector + 1) % 2 ^ 8 ≡ vector + 1 = omega arith in rw (off, free, room, fits)

    runs : isr_init isr_thunks s ≡ ok tt final
    unfolding isr_init
    runs =
        >>=-ok (set_vectors isr_thunks 0 32) (λ _. set_vectors isr_thunks 32 224 >> abort_entry)
          (set_vectors_lem 0 32 s)
        ∙ >>=-ok (set_vectors isr_thunks 32 224) (λ _. abort_entry)
            (set_vectors_lem 32 224 (set_up_to s 0 32))
        ∙ enters_abort

    other_gate : (v : ℕ) → v < 256 → v ≢ vector → final.idt v ≡ thunk_gate v
    other_gate v lt ne = ground arith

    other_handler : (v : ℕ) → v < 256 → v ≢ vector → final.isr_handler_table v ≡ generic v
    other_handler v lt ne = ground arith

    -- With interrupts off, the lock free, thunks below 2 ^ 64 and the next free vector from 32 to
    -- 0xef, `isr_init` returns and leaves each of the 256 vectors with a gate to its thunk and the
    -- generic handler, except that the allocated abort vector has a stack of its own and the abort
    -- handler, and the next free vector is the one behind it.
    pub isr_init-IsSetUp :
        (s' : Idt) × (isr_init isr_thunks s ≡ ok tt s') × IsSetUp s' s.idt_free_vector
    isr_init-IsSetUp = (
      final,
      runs,
      record {
        abort_vector = refl;
        abort_gate =
            subst (λ (d : IdtDescriptor). Leads d (isr_thunks vector) cpu_abort_ist)
              (sym (update_self both.idt vector (gate (isr_thunks vector) cpu_abort_ist 0x8e)))
              (gate-Leads (isr_thunks vector) cpu_abort_ist (thunks vector));
        abort_handler = update_self both.isr_handler_table vector (some isr_abort_handler);
        gates = λ v lt ne.
            subst (λ (d : IdtDescriptor). Leads d (isr_thunks v) 0) (sym (other_gate v lt ne))
              (gate-Leads (isr_thunks v) 0 (thunks v));
        handlers = other_handler;
        next = refl;
      },
    )
