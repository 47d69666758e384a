-- ===== src/Mp/BootTests.antt =====
-- Two CPUs, of which the first booted.
use cynix.Base.{ℕ, true, false, [], ◌∷◌, ◌==◌, if◌then◌else◌}
use cynix.Base.Outcome.{Outcome}
use cynix.Machine.{Machine}
use cynix.Cpu.Fpu.{Leaves, by_fxsave}
use cynix.Gdt.{segment}
use cynix.Mp.Boot.{MpResponse}
use cynix.Mp.Kernel.{Core, Kernel}
use cynix.Mp.Local.{zeroed}
use cynix.Vector.{Realloc}

-- A machine of 64 pages, of which the first is in use
abbrev memory : Machine
memory = record {
  interrupts = false;
  hhdm = 0x1_0000_0000;
  word = λ _. 0;
  mm_init_done = true;
  memmap = [];
  pmm_init_done = true;
  pmm_lock = false;
  pmm_bitmap = λ i. if i == 0 then 1 else 0;
  pmm_avl_page_count = 64;
  pmm_last_used_index = 1;
}

-- Leaf 0x15 reports 24 MHz.
abbrev leaves : Leaves
leaves leaf subleaf =
    if leaf == 0
    then record { eax = 0x15; ebx = 0; ecx = 0; edx = 0 }
    else if leaf == 0x15
    then record { eax = 1; ebx = 1; ecx = 24000000; edx = 0 }
    else record { eax = 0; ebx = 0; ecx = 0; edx = 0 }

abbrev core : Core
core = record {
  leaves = leaves;
  registers = record {
    cr0 = 0x11;
    cr2 = 0;
    cr3 = 0;
    cr4 = 0x20;
    tsc = 0;
    msr = λ r. if r == 0x1b then 0xfee00900 else 0;
    xcr = λ _. 0;
  };
  mmio = λ _. 0;
  sent = [];
  counts = [];
  segments = record { cs = 0; ds = 0; es = 0; ss = 0; fs = 0; gs = 0 };
  gdtr = (0, 0);
  idtr = (0, 0);
  task_register = 0;
}

abbrev kernel : Kernel
kernel = record {
  machine = memory;
  gdt = λ _. segment 0 0;
  gdt_lock = false;
  vmm_la57 = false;
  pagemap_lock = false;
  top_level = 0x1000;
  fpu_storage_size = 0;
  fpu_save = by_fxsave;
  x2apic_mode = false;
  lapic_base = 0;
  ports = record { written = []; to_read = [] };
  cpu_locals = record { items = λ _. 0; length = 0; capacity = 0 };
  locals = λ _. zeroed;
  cores = λ _. core;
  mp_init_done = false;
  core = core;
  local = zeroed;
}

abbrev plenty : Realloc ℕ
plenty = record { granted = λ bytes. true; beyond = λ i. 0 }

abbrev response : MpResponse
response = record {
  bsp_lapic_id = 0;
  cpus = record { lapic_id = 0; core = core } ∷ record { lapic_id = 2; core = core } ∷ [];
}
