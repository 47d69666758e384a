-- ===== src/Panic/Tests.antt =====
-- A page fault on the second of two CPUs, with one terminal whose screen is the text on it.
use cynix.Base.{ℕ, ◌≡◌, refl, inl, true, false, Option, none, some, List, [], ◌∷◌, ◌++◌, arith}
use cynix.Base.Run.{ok, spins, pure}
use cynix.Cpu.Context.{CpuCtx}
use cynix.Idt.{isr_abort_handler}
use cynix.Mp.Local.{zeroed}
use cynix.Panic.{
  heading, reason_for, blank_line, cpu_context, system_halted, named, page_fault, unknown,
  exception_name, Formatter, Panic, report, panic, handle,
}
use cynix.Panic.Report.{report_text, report-Says}
use cynix.Term.{Flanterm, debug_done}
use cynix.Term.Output.{drawn}

abbrev demo_flanterm : Flanterm (List ℕ)
demo_flanterm = record {
  fb_init = λ with_heap fb. pure fb;
  deinit = λ ctx. pure tt;
  write = λ ctx bytes screen. screen ++ bytes;
}

-- Each format is a letter before its values.
abbrev demo_format : Formatter
demo_format heading values = 72 ∷ values
demo_format reason_for values = 82 ∷ values
demo_format blank_line values = 10 ∷ values
demo_format cpu_context values = 67 ∷ values
demo_format system_halted values = 83 ∷ values
demo_format (named name) values = 78 ∷ values

abbrev demo_ctx : CpuCtx
demo_ctx = record {
  ds = 0x10;
  es = 0x10;
  rax = 1;
  rbx = 2;
  rcx = 3;
  rdx = 4;
  rsi = 5;
  rdi = 6;
  rbp = 7;
  r8 = 8;
  r9 = 9;
  r10 = 10;
  r11 = 11;
  r12 = 12;
  r13 = 13;
  r14 = 14;
  r15 = 15;
  err = 2;
  rip = 0x8000;
  cs = 0x8;
  rflags = 0x202;
  rsp = 0x7000;
  ss = 0x10;
}

abbrev demo : Panic (List ℕ)
demo = record {
  cpus = record {
    interrupts = true;
    lapic = record {
      x2apic_mode = true;
      hhdm = 0;
      lapic_base = 0;
      msr = λ _. 0;
      mmio = λ _. 0;
      sent = [];
    };
    running_on = 1;
    cpu_locals =
        record zeroed { is_bsp = true } ∷ record zeroed { cpu_number = 1; lapic_id = 2 } ∷ [];
    mp_init_done = true;
    isr_abort_vector = 32;
    panic_lock = false;
  };
  terms = record {
    interrupts = true;
    screen = [];
    fb_init_done = true;
    fb_count = 1;
    fbs = λ _. 100;
    term_init_done = debug_done;
    term_count = 1;
    spinlock = λ _. false;
    ft_ctx = λ _. 100;
    printf_lock = false;
  };
  cr2 = 0xdead;
  cr3 = 0x1000;
}

report-Says_example :
    (q : Panic (List ℕ)) × (report demo_flanterm demo_format none (some demo_ctx) (80 ∷ []) demo
      ≡ ok tt q)
    × (q.terms.screen
        ≡ drawn demo_flanterm 100
            (report_text demo_flanterm demo_format none (some demo_ctx) (80 ∷ []) 0xdead 0x1000)
            [])
    × (q.cpus.interrupts ≡ false)
    × (q.cpus.lapic.sent ≡ (2, 32) ∷ [])
    × ((ctx' : Option CpuCtx) (message' : List ℕ)
        → panic demo_flanterm demo_format none ctx' message' q ≡ spins)
report-Says_example =
    report-Says demo_flanterm demo_format none (some demo_ctx) (80 ∷ []) demo
      (record { opened = inl refl; unlocked = λ i. refl; context = λ e. omega arith }) refl
      (omega arith) refl refl (omega arith, (omega arith, tt))

page_fault_run : exception_name 14 ≡ page_fault
unfolding exception_name
page_fault_run = refl

-- The table of names has no entry for a vector behind the exceptions.
unknown_run : exception_name 40 ≡ unknown
unfolding exception_name
unknown_run = refl

-- A CPU that gets the abort vector halts.
abort_run :
    (p : Panic (List ℕ))
    → handle demo_flanterm demo_format none isr_abort_handler 32 demo_ctx p ≡ spins
unfolding handle
abort_run p = refl
