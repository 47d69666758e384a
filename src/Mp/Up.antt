-- ===== src/Mp/Up.antt =====
-- What `cpu_init` comes to.
use cynix.Base.{
  ℕ, ◌+◌, ◌*◌, ◌/◌, ◌%◌, ◌^◌, ◌≡◌, sym, ap, subst, ◌∙◌, true, false, add64, update, arith,
}
use cynix.Base.Outcome.{Outcome, returned, Outcome-then_at, Outcome-weaken, Outcome-zoom}
use cynix.Machine.{Machine}
use cynix.Alloc.Fresh.{Later}
use cynix.Cpu.{set_gs_base, set_kernel_gs_base, wrmsr}
use cynix.Gdt.{Gdt, gdt_load_tss}
use cynix.Gdt.Segments.{gdt_load_tss-HasTss}
use cynix.Mp.Boot.{
  base_of, gdt_limit, idt_limit, gdt_reload, idt_reload, enter_idle_thread, cpu_init,
}
use cynix.Mp.Kernel.{Kernel, gdt_of, with_gdt}
use cynix.Mp.Local.{CpuTss, Thread, tss_offset, idle_thread_offset}
use cynix.Stack.{Stack}
use cynix.Vmm.{vmm_switch_pagemap}
use cynix.Vector.{Realloc}
use cynix.Mp.Start.{
  Fails, IsReady, stacked, Reports, IsOnline, make_stacks-Outcome, bring_online-IsOnline,
}

-- What `cpu_init` brings the CPU to, from its struct at `cpu_local`: it is online, with stacks of its
-- own in the TSS, the kernel's page tables, and the segment base at its idle thread.
pub record IsUp (lapic_id cpu_local : ℕ) (k k' : Kernel) : Type 0 where
  pub later : Later k.machine k'.machine
  pub unlocked : k'.gdt_lock ≡ false
  pub same_vector : k'.cpu_locals ≡ k.cpu_locals
  pub same_locals : k'.locals ≡ k.locals
  pub same_cores : k'.cores ≡ k.cores
  pub same_top : k'.top_level ≡ k.top_level
  pub same_number : k'.local.cpu_number ≡ k.local.cpu_number
  pub same_bsp : k'.local.is_bsp ≡ k.local.is_bsp
  pub id : k'.local.lapic_id ≡ lapic_id
  pub online : k'.local.online ≡ true
  pub int_stack : k'.local.tss.rsp0 ≡ k'.local.common_int_stack.top
  pub abort_stack : k'.local.tss.ist1 ≡ k'.local.abort_stack.top
  pub self : k'.local.idle_thread.self ≡ add64 cpu_local idle_thread_offset
  pub running_on : k'.local.idle_thread.running_on ≡ k.local.cpu_number
  pub gs_base : k'.core.registers.msr 0xc0000101 ≡ k'.local.idle_thread.self
  pub cr3 : k'.core.registers.cr3 ≡ k.top_level

module _ (r : Realloc ℕ) (gdt idt rounds lapic_id cpu_local : ℕ) (k : Kernel)
    (ready : IsReady k.machine) (off : k.machine.interrupts ≡ false) (free : k.gdt_lock ≡ false)
    (reports : Reports k.core) where
  abbrev idle : ℕ
  idle = add64 cpu_local idle_thread_offset

  -- The kernel once the tables and the page tables are loaded
  abbrev loaded : Gdt → Kernel
  loaded g =
      let base = base_of (k.gdt 4) in
      record k {
        gdt_lock = g.gdt_lock;
        gdt = g.gdt;
        core = record k.core {
          gdtr = (gdt_limit, gdt);
          idtr = (idt_limit, idt);
          task_register = g.task_register;
          segments = record { cs = 0x08; ds = 0x10; es = 0x10; ss = 0x10; fs = 0x23; gs = 0x23 };
          registers = record k.core.registers {
            cr3 = k.top_level;
            msr = update (update k.core.registers.msr 0xc0000100 base) 0xc0000101 base;
          };
        };
        local = record k.local { lapic_id = lapic_id };
      }

  -- and once it has its stacks and the segment bases
  abbrev idling : Gdt → Machine × Stack × Stack → Kernel
  idling g x =
      let s = stacked (loaded g) x in
      let to = idle / 2 ^ 32 % 2 ^ 32 * 2 ^ 32 + idle % 2 ^ 32 in
      record s {
        core = record s.core {
          registers = record s.core.registers {
            msr = update (update s.core.registers.msr 0xc0000101 to) 0xc0000102 to;
          };
        };
        local = record s.local {
          idle_thread = record k.local.idle_thread { self = idle; running_on = k.local.cpu_number };
        };
      }

  idling-gs :
      (g : Gdt) (x : Machine × Stack × Stack) → (idling g x).core.registers.msr 0xc0000101 ≡ idle
  idling-gs g x = ground arith

  IsOnline-IsUp :
      (g : Gdt) (x : Machine × Stack × Stack) (k' : Kernel)
      → g.gdt_lock ≡ false
      → Later k.machine x.0
      → IsOnline (idling g x) k'
      → IsUp lapic_id cpu_local k k'
  IsOnline-IsUp g x k' unlocked later o = record {
    later = subst (Later k.machine) (sym o.same_machine) later;
    unlocked = o.same_lock ∙ unlocked;
    same_vector = o.same_vector;
    same_locals = o.same_locals;
    same_cores = o.same_cores;
    same_top = o.same_top;
    same_number = o.same_number;
    same_bsp = o.same_bsp;
    id = o.same_id;
    online = o.online;
    int_stack =
        ap (λ (t : CpuTss). t.rsp0) o.same_tss ∙ ap (λ (s : Stack). s.top) (sym o.same_int_stack);
    abort_stack =
        ap (λ (t : CpuTss). t.ist1) o.same_tss ∙ ap (λ (s : Stack). s.top) (sym o.same_abort_stack);
    self = ap (λ (t : Thread). t.self) o.same_idle;
    running_on = ap (λ (t : Thread). t.running_on) o.same_idle;
    gs_base =
        o.same_high 0xc0000101 (omega arith)
        ∙ idling-gs g x
        ∙ sym (ap (λ (t : Thread). t.self) o.same_idle);
    cr3 = o.same_cr3;
  }

  pub cpu_init-IsUp :
      Outcome
        (Fails r)
        (λ _ k'. IsUp lapic_id cpu_local k k')
        (cpu_init gdt idt rounds lapic_id cpu_local k)
  unfolding cpu_init gdt_reload idt_reload vmm_switch_pagemap enter_idle_thread set_gs_base
      set_kernel_gs_base wrmsr
  cpu_init-IsUp =
      let (g, loads, _, unlocked, _) =
        gdt_load_tss-HasTss (gdt_of k) (add64 cpu_local tss_offset) (omega arith) off free in
      Outcome-then_at _ {P = λ _ g. g.gdt_lock ≡ false}
        (Outcome-zoom gdt_of with_gdt (gdt_load_tss (add64 cpu_local tss_offset))
          (returned tt g loads unlocked))
        λ _ g unlocked. Outcome-then_at _ (make_stacks-Outcome r (loaded g) ready) λ _ x later.
          Outcome-weaken (λ reason f. f) (λ _ k' o. IsOnline-IsUp g x k' unlocked later o)
            (bring_online-IsOnline r rounds (idling g x) reports)
