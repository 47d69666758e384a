-- ===== src/Mp/Boot.antt =====
-- `cpu_init` of kernel/src/sys/cpu.c and `mp_init` of sys/mp.c: how the CPUs are started.
use cynix.Base.{ℕ, ◌+◌, ◌*◌, ◌/◌, ◌^◌, ◌-◌, ◌*◌, true, List, [], ◌∷◌, ◌==◌, add64, update}
use cynix.Base.Run.{Cmd, gets, modify, pure, ◌>>=◌, ◌>>◌}
use cynix.Alloc.{alloc}
use cynix.Cpu.{set_gs_base, set_kernel_gs_base}
use cynix.Cpu.Fpu.{enable_fpu}
use cynix.Gdt.{
  GdtDescriptor, gdt_kernel_code_sel, gdt_kernel_data_sel, gdt_user_data_sel, gdt_load_tss,
}
use cynix.Lapic.{lapic_enable}
use cynix.Lapic.Timer.{on_lapic, lapic_timer_calibrate}
use cynix.Mp.Kernel.{
  Core, Kernel, on_machine, on_vmm, on_gdt, on_registers, on_fpu, on_timer, on_cpu_locals,
}
use cynix.Mp.Local.{CpuLocal, tss_offset, idle_thread_offset, cpu_local_size, zeroed}
use cynix.Stack.{stack_new}
use cynix.Vector.{Realloc, vector_push_back}
use cynix.Vmm.{vmm_switch_pagemap}

-- What the bootloader says of a CPU, and the CPU as it leaves it.
pub record MpInfo : Type 0 where
  pub lapic_id : ℕ
  pub core : Core

pub record MpResponse : Type 0 where
  pub bsp_lapic_id : ℕ
  pub cpus : List MpInfo

abbrev set_local : (CpuLocal → CpuLocal) → Cmd Kernel (Unit {0})
set_local f = modify (λ k. record k { local = f k.local })

-- `sizeof(gdt) - 1` and `sizeof(idt) - 1`: 7 descriptors of 8 bytes, and 256 of 16
abbrev pub gdt_limit : ℕ
gdt_limit = 7 * 8 - 1

abbrev pub idt_limit : ℕ
idt_limit = 256 * 16 - 1

abbrev pub base_of : GdtDescriptor → ℕ
base_of d = d.base_low16 + d.base_mid8 * 2 ^ 16 + d.base_high8 * 2 ^ 24

-- `gdt` is the address of the table. Loading a selector into `fs` or `gs` loads its base, which the
-- CPU keeps in a model-specific register, from the descriptor: selector 0x23 is of descriptor 4.
unfoldable pub gdt_reload : (gdt : ℕ) → Cmd Kernel (Unit {0})
gdt_reload gdt = do
  base ← gets (λ k. base_of (k.gdt (gdt_user_data_sel / 8)))
  modify (λ k. record k {
    core = record k.core {
      gdtr = (gdt_limit, gdt);
      segments = record {
        cs = gdt_kernel_code_sel;
        ds = gdt_kernel_data_sel;
        es = gdt_kernel_data_sel;
        ss = gdt_kernel_data_sel;
        fs = gdt_user_data_sel;
        gs = gdt_user_data_sel;
      };
      registers = record k.core.registers {
        msr = update (update k.core.registers.msr 0xc0000100 base) 0xc0000101 base;
      };
    };
  })

-- `idt` is the address of the table.
unfoldable pub idt_reload : (idt : ℕ) → Cmd Kernel (Unit {0})
idt_reload idt = modify (λ k. record k { core = record k.core { idtr = (idt_limit, idt) } })

unfoldable pub make_stacks : Cmd Kernel (Unit {0})
make_stacks = do
  int_stack ← on_machine (stack_new 8 2048)
  set_local
      (λ l. record l { common_int_stack = int_stack; tss = record l.tss { rsp0 = int_stack.top } })
  abort_stack ← on_machine (stack_new 8 512)
  set_local
      (λ l. record l { abort_stack = abort_stack; tss = record l.tss { ist1 = abort_stack.top } })

-- The segment bases lead to the idle thread, which holds the CPU's number.
unfoldable pub enter_idle_thread : (cpu_local : ℕ) → Cmd Kernel (Unit {0})
enter_idle_thread cpu_local = do
  let idle_thread = add64 cpu_local idle_thread_offset
  set_local (λ l. record l {
    idle_thread = record l.idle_thread { self = idle_thread; running_on = l.cpu_number };
  })
  on_registers (set_gs_base idle_thread)
  on_registers (set_kernel_gs_base idle_thread)
  pure tt

-- The FPU, the local APIC and its timer, and the announcement that the CPU is online
unfoldable pub bring_online : (rounds : ℕ) → Cmd Kernel (Unit {0})
bring_online rounds = do
  leaves ← gets (λ k. k.core.leaves)
  on_fpu (enable_fpu leaves)
  on_timer (on_lapic (lapic_enable 0xff))
  on_timer (lapic_timer_calibrate leaves rounds)
  set_local (λ l. record l { online = true })

-- On the CPU of `core`, whose struct is at `cpu_local`. The CPU goes on to `online`, and then back
-- to `mp_init` on the one that booted and to a loop on the others.
unfoldable pub cpu_init : (gdt idt rounds lapic_id cpu_local : ℕ) → Cmd Kernel (Unit {0})
cpu_init gdt idt rounds lapic_id cpu_local = do
  set_local (λ l. record l { lapic_id = lapic_id })
  gdt_reload gdt
  idt_reload idt
  on_gdt (gdt_load_tss (add64 cpu_local tss_offset))
  on_vmm vmm_switch_pagemap
  make_stacks
  enter_idle_thread cpu_local
  bring_online rounds

-- One round of `mp_init`. The other CPU runs `cpu_init` while this one waits for `online`, so the two
-- take turns; on the one that booted it is a call.
unfoldable pub start_cpu :
    Realloc ℕ → (gdt idt rounds bsp_lapic_id i : ℕ) → MpInfo → Cmd Kernel (Unit {0})
start_cpu r gdt idt rounds bsp_lapic_id i mp_info = do
  cpu_local ← on_machine (alloc cpu_local_size)
  on_cpu_locals (vector_push_back r cpu_local)
  modify (λ k. record k {
    core = mp_info.core;
    local = record zeroed { cpu_number = i; is_bsp = mp_info.lapic_id == bsp_lapic_id };
  })
  cpu_init gdt idt rounds mp_info.lapic_id cpu_local
  modify (λ k. record k {
    locals = update k.locals cpu_local k.local;
    cores = update k.cores i k.core;
  })

-- The loop of `mp_init`, from CPU `i` on
unfoldable pub start_cpus :
    Realloc ℕ → (gdt idt rounds bsp_lapic_id i : ℕ) → List MpInfo → Cmd Kernel (Unit {0})
start_cpus r gdt idt rounds bsp_lapic_id i [] = pure tt
start_cpus r gdt idt rounds bsp_lapic_id i (mp_info ∷ rest) =
    start_cpu r gdt idt rounds bsp_lapic_id i mp_info
    >> start_cpus r gdt idt rounds bsp_lapic_id (i + 1) rest

unfoldable pub mp_init : Realloc ℕ → (gdt idt rounds : ℕ) → MpResponse → Cmd Kernel (Unit {0})
mp_init r gdt idt rounds mp_response = do
  start_cpus r gdt idt rounds mp_response.bsp_lapic_id 0 mp_response.cpus
  modify (λ k. record k { mp_init_done = true })
