-- ===== src/Mp/Start.antt =====
-- What the parts of `cpu_init` come to.
use cynix.Base.{
  ℕ, ◌+◌, ◌*◌, ◌^◌, ◌≤◌, ◌<◌, ◌≡◌, refl, ◌∙◌, ◌≢◌, ◌⊎◌, inl, inr, true, some, word_mod, arith,
}
use cynix.Base.Outcome.{Outcome, returned, Outcome-then_at, Outcome-weaken, Outcome-zoom}
use cynix.Base.Run.{Reason, zoom-ok}
use cynix.Machine.{Machine, page_size}
use cynix.Pmm.Alloc.{IsValid}
use cynix.Alloc.Fresh.{Later, Later-trans, RanOut}
use cynix.Cpu.Features.{NoLeaf, SameBases, enable_fpu-Keeps}
use cynix.Cpu.Fpu.{Leaf, cpuid, Fpu, enable_fpu}
use cynix.Lapic.{Lapic, lapic_enable}
use cynix.Lapic.Known.{KeepsHigh, lapic_enable-KeepsHigh, lapic_timer_calibrate-known}
use cynix.Lapic.Timer.{Timer, on_lapic, lapic_timer_calibrate}
use cynix.Mp.Boot.{make_stacks, bring_online}
use cynix.Mp.Kernel.{Core, Kernel, fpu_of, with_fpu, timer_of, with_timer, on_fpu, on_timer}
use cynix.Stack.{Stack, stack_new}
use cynix.Stack.New.{stack_new-Later}
use cynix.Vector.{Realloc}
use cynix.Vector.Items.{Refuses}

-- Memory has run out, a CPU with XSAVE lacks the leaf with the size of its state, or `realloc` panics.
abbrev pub Fails : Realloc ℕ → Reason → Type 0
Fails r reason = RanOut reason ⊎ NoLeaf reason ⊎ Refuses r reason

-- The machine can take blocks.
pub record IsReady (m : Machine) : Type 0 where
  pub valid : IsValid m
  pub below : m.pmm_avl_page_count * page_size + m.hhdm < word_mod

module _ (r : Realloc ℕ) where
  no_memory : (reason : Reason) → RanOut reason → Fails r reason
  no_memory reason e = inl e

  stack-Outcome :
      (m : Machine) (nmemb : ℕ)
      → nmemb < 2 ^ 12
      → IsReady m
      → Outcome (Fails r) (λ _ m'. Later m m') (stack_new 8 nmemb m)
  stack-Outcome m nmemb lt ready =
      Outcome-weaken no_memory (λ _ m' l. l)
        (stack_new-Later 8 nmemb ready.valid (omega arith) ready.below)

-- The kernel once the CPU has its stacks
abbrev pub stacked : Kernel → Machine × Stack × Stack → Kernel
stacked k (m, int_stack, abort_stack) = record k {
  machine = m;
  local = record k.local {
    common_int_stack = int_stack;
    abort_stack = abort_stack;
    tss = record k.local.tss { rsp0 = int_stack.top; ist1 = abort_stack.top };
  };
}

module _ (r : Realloc ℕ) (k : Kernel) (ready : IsReady k.machine) where
  pub make_stacks-Outcome :
      Outcome
        (Fails r)
        (λ _ k'. (x : Machine × Stack × Stack) × (k' ≡ stacked k x) × Later k.machine x.0)
        (make_stacks k)
  unfolding make_stacks
  make_stacks-Outcome =
      Outcome-then_at _
        (Outcome-zoom (λ (k : Kernel). k.machine) (λ m k. record k { machine = m })
          (stack_new 8 2048) (stack-Outcome r k.machine 2048 (omega arith) ready))
        λ int_stack m₁ first.
          Outcome-then_at _
            (Outcome-zoom (λ (k : Kernel). k.machine) (λ m k. record k { machine = m })
              (stack_new 8 512)
              (stack-Outcome r m₁ 512 (omega arith)
                (record { valid = first.valid; below = first.below })))
            λ abort_stack m₂ second.
              returned tt (stacked k (m₂, int_stack, abort_stack)) refl
                ((m₂, int_stack, abort_stack), refl, Later-trans first second)

-- `cpuid` reports the frequency of the APIC's timer.
abbrev pub Reports : Core → Type 0
Reports c = (x : Leaf) × (cpuid c.leaves 0x15 0 ≡ some x) × (x.ecx ≢ 0)

module _ (r : Realloc ℕ) (k : Kernel) where
  fpu-Outcome :
      Outcome
        (Fails r)
        (λ _ k'. (f : Fpu) × (k' ≡ with_fpu f k) × SameBases k.core.registers f.cpu)
        (on_fpu (enable_fpu k.core.leaves) k)
  fpu-Outcome = Outcome-zoom fpu_of with_fpu (enable_fpu k.core.leaves) (
      Outcome-weaken (λ reason e. inr (inl e)) (λ _ f same. same)
        (enable_fpu-Keeps k.core.leaves (fpu_of k)))

  enable-Outcome :
      Outcome
        (Fails r)
        (λ _ k'.
          (l : Lapic) × (k' ≡ with_timer (record (timer_of k) { lapic = l }) k)
          × KeepsHigh (timer_of k).lapic l)
        (on_timer (on_lapic (lapic_enable 0xff)) k)
  enable-Outcome =
      let (l, e, keeps) = lapic_enable-KeepsHigh 0xff (timer_of k).lapic in
      returned tt (with_timer (record (timer_of k) { lapic = l }) k)
        (zoom-ok timer_of with_timer (on_lapic (lapic_enable 0xff))
          (zoom-ok (λ (t : Timer). t.lapic) (λ l t. record t { lapic = l }) (lapic_enable 0xff) e))
        (l, refl, keeps)

  calibrate-Outcome :
      (rounds : ℕ)
      → Reports k.core
      → Outcome
          (Fails r)
          (λ _ k'. (t : Timer) × (k' ≡ with_timer t k) × KeepsHigh (timer_of k).lapic t.lapic)
          (on_timer (lapic_timer_calibrate k.core.leaves rounds) k)
  calibrate-Outcome rounds (x, known, pos) =
      let (t, e, _, keeps) =
        lapic_timer_calibrate-known k.core.leaves rounds (timer_of k) x known pos in
      Outcome-zoom timer_of with_timer (lapic_timer_calibrate k.core.leaves rounds)
        (returned tt t e keeps)

-- What the last part of `cpu_init` leaves alone
pub record IsOnline (k k' : Kernel) : Type 0 where
  pub same_machine : k'.machine ≡ k.machine
  pub same_lock : k'.gdt_lock ≡ k.gdt_lock
  pub same_vector : k'.cpu_locals ≡ k.cpu_locals
  pub same_locals : k'.locals ≡ k.locals
  pub same_cores : k'.cores ≡ k.cores
  pub same_top : k'.top_level ≡ k.top_level
  pub same_flags : (k'.mp_init_done ≡ k.mp_init_done)
  pub same_number : k'.local.cpu_number ≡ k.local.cpu_number
  pub same_bsp : k'.local.is_bsp ≡ k.local.is_bsp
  pub same_id : k'.local.lapic_id ≡ k.local.lapic_id
  pub same_tss : k'.local.tss ≡ k.local.tss
  pub same_int_stack : k'.local.common_int_stack ≡ k.local.common_int_stack
  pub same_abort_stack : k'.local.abort_stack ≡ k.local.abort_stack
  pub same_idle : k'.local.idle_thread ≡ k.local.idle_thread
  pub online : k'.local.online ≡ true
  pub same_cr3 : k'.core.registers.cr3 ≡ k.core.registers.cr3
  pub same_high : (n : ℕ) → 0x900 ≤ n → k'.core.registers.msr n ≡ k.core.registers.msr n

module _ (r : Realloc ℕ) (rounds : ℕ) (k : Kernel) (reports : Reports k.core) where
  abbrev final : Fpu → Lapic → Timer → Kernel
  final f l t =
      let k' =
        with_timer t (with_timer (record (timer_of (with_fpu f k)) { lapic = l }) (with_fpu f k)) in
      record k' { local = record k'.local { online = true } }

  pub bring_online-IsOnline : Outcome (Fails r) (λ _ k'. IsOnline k k') (bring_online rounds k)
  unfolding bring_online
  bring_online-IsOnline = Outcome-then_at _ (fpu-Outcome r k) λ _ f same.
      Outcome-then_at _ (enable-Outcome r (with_fpu f k)) λ _ l kept.
        Outcome-then_at _
          (calibrate-Outcome r
            (with_timer (record (timer_of (with_fpu f k)) { lapic = l }) (with_fpu f k)) rounds
            reports)
          λ _ t keeps. returned tt (final f l t) refl (record {
            same_machine = refl;
            same_lock = refl;
            same_vector = refl;
            same_locals = refl;
            same_cores = refl;
            same_top = refl;
            same_flags = refl;
            same_number = refl;
            same_bsp = refl;
            same_id = refl;
            same_tss = refl;
            same_int_stack = refl;
            same_abort_stack = refl;
            same_idle = refl;
            online = refl;
            same_cr3 = same.same_cr3;
            same_high = λ n le. keeps n le ∙ kept n le ∙ same.same_msr n;
          })
