-- ===== src/Main/Tests.antt =====
-- The start of a machine of 2049 pages, with two framebuffers.
use cynix.Base.{ℕ, ◌+◌, ◌^◌, true, false, none, some, List, [], ◌∷◌, if◌then◌else◌}
use cynix.Base.Outcome.{Outcome}
use cynix.Base.Run.{pure}
use cynix.Acpi.{Acpi}
use cynix.Cpu.Fpu.{by_fxsave}
use cynix.Gdt.{segment}
use cynix.Idt.{Idt}
use cynix.Machine.{Machine}
use cynix.Main.{Bootloader, System}
use cynix.Memmap.{MemmapEntry, usable, reserved}
use cynix.Misc.{Bytes}
use cynix.Mp.Kernel.{Core, Kernel, vmm_of}
use cynix.Mp.Local.{zeroed}
use cynix.Slab.{Slabs}
use cynix.Term.{Flanterm, Terms, not_done}

abbrev boot_map : List MemmapEntry
boot_map =
    record { base = 0; length = 0x1000; kind = reserved }
    ∷ record { base = 0x1000; length = 0x800_000; kind = usable }
    ∷ []

abbrev hhdm : ℕ
hhdm = 0xffff_8000_0000_0000

abbrev boot : Bootloader
boot = record {
  base_revision_supported = true;
  info = record { hhdm_offset = some hhdm; memmap_entries = some boot_map };
  framebuffers = some (100 ∷ 200 ∷ []);
  loader = record {
    five_levels = none;
    executable_address = some (0x2000, 0xffff_ffff_8000_0000);
    program_headers = [];
  };
  mp = none;
  rsdp = 0;
}

abbrev machine : Machine
machine = record {
  interrupts = false;
  hhdm = 0;
  word = λ _. 0;
  mm_init_done = false;
  memmap = [];
  pmm_init_done = false;
  pmm_lock = false;
  pmm_bitmap = λ _. 0;
  pmm_avl_page_count = 0;
  pmm_last_used_index = 0;
}

abbrev core : Core
core = record {
  leaves = λ _ _. record { eax = 0; ebx = 0; ecx = 0; edx = 0 };
  registers = record {
    cr0 = 0x11;
    cr2 = 0;
    cr3 = 0;
    cr4 = 0x20;
    tsc = 0;
    msr = λ _. 0;
    xcr = λ _. 0;
  };
  mmio = λ _. 0;
  sent = [];
  counts = [];
  segments = record { cs = 0; ds = 0; es = 0; ss = 0; fs = 0; gs = 0 };
  gdtr = (0, 0);
  idtr = (0, 0);
  task_register = 0;
}

abbrev kernel : Kernel
kernel = record {
  machine = machine;
  gdt = λ _. segment 0 0;
  gdt_lock = false;
  vmm_la57 = false;
  pagemap_lock = false;
  top_level = 0;
  fpu_storage_size = 0;
  fpu_save = by_fxsave;
  x2apic_mode = false;
  lapic_base = 0;
  ports = record { written = []; to_read = [] };
  cpu_locals = record { items = λ _. 0; length = 0; capacity = 0 };
  locals = λ _. zeroed;
  cores = λ _. core;
  mp_init_done = false;
  core = core;
  local = zeroed;
}

abbrev slabs : Slabs
slabs = record {
  machine = machine;
  slabs_at = 2 ^ 30;
  stale = 7;
  lock = λ _. false;
  first_free = λ _. 0;
  ent_size = λ _. 0;
}

abbrev idt : Idt
idt = record {
  interrupts = false;
  idt = λ v. record {
    base_low16 = 0;
    selector = 0;
    ist = 0;
    flags = 0;
    base_mid16 = 0;
    base_high32 = 0;
    reserved = 0;
  };
  idt_lock = false;
  idt_free_vector = 32;
  isr_handler_table = λ v. none;
  isr_abort_vector = 0;
  sched_vector = 0;
}

abbrev acpi : Acpi
acpi = record {
  vmm = vmm_of kernel;
  hhdm = 0;
  firmware = λ _. 0;
  rsdp = 0;
  rsdt = 0;
  room = λ _. true;
  x2apic_mode = false;
  madt = record {
    madt_lapics = [];
    madt_x2apics = [];
    madt_io_apics = [];
    madt_isos = [];
    madt_nmis = [];
  };
  hpet_at = 0;
  hpet = record { general_capabilities = 0; general_configuration = 0; main_counter_value = 0 };
  hpet_frequency = 0;
}

-- The screen keeps what is written on a context.
abbrev Screen : Type 0
Screen = List (ℕ × List ℕ)

abbrev flanterm : Flanterm (Machine × Screen)
flanterm = record {
  fb_init = λ heap fb. pure (fb + (if heap then 1 else 0));
  deinit = λ ctx. pure tt;
  write = λ ctx bytes x. (x.0, (ctx, bytes) ∷ x.1);
}

abbrev terms : Terms (Machine × Screen)
terms = record {
  interrupts = false;
  screen = (machine, []);
  fb_init_done = false;
  fb_count = 0;
  fbs = λ _. 0;
  term_init_done = not_done;
  term_count = 0;
  spinlock = λ _. false;
  ft_ctx = λ _. 0;
  printf_lock = false;
}

abbrev system : System Screen
system = record { kernel = kernel; slabs = slabs; terms = terms; idt = idt; acpi = acpi }

abbrev memory : ℕ → Bytes
memory address i = 0

abbrev thunks : ℕ → ℕ
thunks v = 0xffff_ffff_8000_1000
