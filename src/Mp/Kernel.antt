-- ===== src/Mp/Kernel.antt =====
-- The state that starting the CPUs works on: what they share, and what belongs to the CPU that runs.
use cynix.Base.{ℕ, Bool, List}
use cynix.Base.Run.{Cmd, zoom}
use cynix.Machine.{Machine}
use cynix.Gdt.{GdtDescriptor, Gdt}
use cynix.Vmm.{Vmm}
use cynix.Vector.{Vector}
use cynix.Cpu.{Cpu}
use cynix.Cpu.Fpu.{Leaves, Saving, Fpu}
use cynix.Lapic.Timer.{Timer}
use cynix.Pit.{Ports}
use cynix.Mp.Local.{CpuLocal}

-- The selectors in the segment registers
pub record Segments : Type 0 where
  pub cs : ℕ
  pub ds : ℕ
  pub es : ℕ
  pub ss : ℕ
  pub fs : ℕ
  pub gs : ℕ

-- One CPU: what `cpuid` answers, its registers, its local APIC with the answers of the timer's
-- current count, and the table and task registers.
pub record Core : Type 0 where
  pub leaves : Leaves
  pub registers : Cpu
  pub mmio : ℕ → ℕ
  pub sent : List (ℕ × ℕ)
  pub counts : List ℕ
  pub segments : Segments
  pub gdtr : ℕ × ℕ
  pub idtr : ℕ × ℕ
  pub task_register : ℕ

-- `machine.interrupts`, `core` and `local` are of the CPU that runs. `cpu_locals` holds addresses,
-- `locals` what is there, and `cores` the CPUs that have been started, by their number.
pub record Kernel : Type 0 where
  pub machine : Machine
  pub gdt : ℕ → GdtDescriptor
  pub gdt_lock : Bool
  pub vmm_la57 : Bool
  pub pagemap_lock : Bool
  pub top_level : ℕ
  pub fpu_storage_size : ℕ
  pub fpu_save : Saving
  pub x2apic_mode : Bool
  pub lapic_base : ℕ
  pub ports : Ports
  pub cpu_locals : Vector ℕ
  pub locals : ℕ → CpuLocal
  pub cores : ℕ → Core
  pub mp_init_done : Bool
  pub core : Core
  pub local : CpuLocal

abbrev pub on_machine : {A : Type 0} → Cmd Machine A → Cmd Kernel A
on_machine = zoom (λ k. k.machine) (λ m k. record k { machine = m })

-- The kernel's page tables, with the CPU's CR3
abbrev pub vmm_of : Kernel → Vmm
vmm_of k = record {
  machine = k.machine;
  vmm_la57 = k.vmm_la57;
  spinlock = k.pagemap_lock;
  top_level = k.top_level;
  cr3 = k.core.registers.cr3;
}

abbrev pub with_vmm : Vmm → Kernel → Kernel
with_vmm v k = record k {
  machine = v.machine;
  vmm_la57 = v.vmm_la57;
  pagemap_lock = v.spinlock;
  top_level = v.top_level;
  core = record k.core { registers = record k.core.registers { cr3 = v.cr3 } };
}

abbrev pub on_vmm : {A : Type 0} → Cmd Vmm A → Cmd Kernel A
on_vmm = zoom vmm_of with_vmm

abbrev pub gdt_of : Kernel → Gdt
gdt_of k = record {
  interrupts = k.machine.interrupts;
  gdt_lock = k.gdt_lock;
  gdt = k.gdt;
  task_register = k.core.task_register;
}

abbrev pub with_gdt : Gdt → Kernel → Kernel
with_gdt g k = record k {
  gdt_lock = g.gdt_lock;
  gdt = g.gdt;
  core = record k.core { task_register = g.task_register };
}

abbrev pub on_gdt : {A : Type 0} → Cmd Gdt A → Cmd Kernel A
on_gdt = zoom gdt_of with_gdt

abbrev pub on_registers : {A : Type 0} → Cmd Cpu A → Cmd Kernel A
on_registers =
    zoom (λ k. k.core.registers) (λ c k. record k { core = record k.core { registers = c } })

abbrev pub fpu_of : Kernel → Fpu
fpu_of k = record {
  cpu = k.core.registers;
  fpu_storage_size = k.fpu_storage_size;
  fpu_save = k.fpu_save;
}

abbrev pub with_fpu : Fpu → Kernel → Kernel
with_fpu f k = record k {
  core = record k.core { registers = f.cpu };
  fpu_storage_size = f.fpu_storage_size;
  fpu_save = f.fpu_save;
}

abbrev pub on_fpu : {A : Type 0} → Cmd Fpu A → Cmd Kernel A
on_fpu = zoom fpu_of with_fpu

-- The local APIC's model-specific registers are the CPU's.
abbrev pub timer_of : Kernel → Timer
timer_of k = record {
  lapic = record {
    x2apic_mode = k.x2apic_mode;
    hhdm = k.machine.hhdm;
    lapic_base = k.lapic_base;
    msr = k.core.registers.msr;
    mmio = k.core.mmio;
    sent = k.core.sent;
  };
  ports = k.ports;
  counts = k.core.counts;
  lapic_timer_freq = k.local.lapic_timer_freq;
}

abbrev pub with_timer : Timer → Kernel → Kernel
with_timer t k = record k {
  lapic_base = t.lapic.lapic_base;
  ports = t.ports;
  core = record k.core {
    registers = record k.core.registers { msr = t.lapic.msr };
    mmio = t.lapic.mmio;
    sent = t.lapic.sent;
    counts = t.counts;
  };
  local = record k.local { lapic_timer_freq = t.lapic_timer_freq };
}

abbrev pub on_timer : {A : Type 0} → Cmd Timer A → Cmd Kernel A
on_timer = zoom timer_of with_timer

abbrev pub on_cpu_locals : {A : Type 0} → Cmd (Vector ℕ) A → Cmd Kernel A
on_cpu_locals = zoom (λ k. k.cpu_locals) (λ v k. record k { cpu_locals = v })
