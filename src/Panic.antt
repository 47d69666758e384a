-- ===== src/Panic.antt =====
-- `panic` of kernel/src/lib/panic.c, and the handlers of isr.c and sched.c that the interrupt thunks
-- call.
pub mod Report
mod Tests
use cynix.Base.{
  ℕ, zero, suc, ◌-◌, Option, none, some, List, [], ◌∷◌, length, ltb, ◌==◌, if◌then◌else◌,
}
use cynix.Base.Run.{Cmd, spins, gets, pure, zoom, ◌>>=◌, ◌>>◌}
use cynix.Cpu.Context.{CpuCtx}
use cynix.Gdt.{gdt_user_code_sel}
use cynix.Idt.{Handler, isr_generic_exception_handler, isr_abort_handler, sched_isr}
use cynix.Lapic.{lapic_timer_stop}
use cynix.Mp.{Cpus, on_lapic, stop_machine}
use cynix.Term.{Flanterm, Terms, vprintf}

-- The names in `isr_exception_names`; `unknown` is "???".
pub data ExceptionName : Type 0 where
  division debug nmi breakpoint overflow bound_range invalid_opcode no_device double_fault unknown :
      ExceptionName
  invalid_tss no_segment stack_segment general_protection page_fault x87 alignment_check :
      ExceptionName
  machine_check simd virtualisation : ExceptionName

abbrev isr_exception_names : List ExceptionName
isr_exception_names =
    division ∷ debug ∷ nmi ∷ breakpoint ∷ overflow ∷ bound_range ∷ invalid_opcode ∷ no_device
    ∷ double_fault ∷ unknown ∷ invalid_tss ∷ no_segment ∷ stack_segment ∷ general_protection
    ∷ page_fault ∷ unknown ∷ x87 ∷ alignment_check ∷ machine_check ∷ simd ∷ virtualisation ∷ []

-- The entry at an index, or "???" behind the end
abbrev name_at : List ExceptionName → (index : ℕ) → ExceptionName
name_at [] i = unknown
name_at (name ∷ names) zero = name
name_at (name ∷ names) (suc i) = name_at names i

unfoldable pub exception_name : (int_number : ℕ) → ExceptionName
exception_name int_number = name_at isr_exception_names int_number

-- The formats that `panic` prints. Their text is what nanoprintf makes of a format and its values.
pub data Format : Type 0 where
  heading reason_for blank_line cpu_context system_halted : Format
  named : ExceptionName → Format

abbrev pub Formatter : Type 0
Formatter = Format → List ℕ → List ℕ

-- The CPU that panics, with what it shares, and the terminals
pub record Panic (Screen : Type 0) : Type 0 where
  pub cpus : Cpus
  pub terms : Terms Screen
  pub cr2 : ℕ
  pub cr3 : ℕ

-- The values of the dump in the order of its format
unfoldable pub dumped : CpuCtx → (cr2 cr3 : ℕ) → List ℕ
dumped c cr2 cr3 =
    c.rax ∷ c.rbx ∷ c.rcx ∷ c.rdx ∷ c.rsi ∷ c.rdi ∷ c.rbp ∷ c.rsp ∷ c.r8 ∷ c.r9 ∷ c.r10 ∷ c.r11
    ∷ c.r12 ∷ c.r13 ∷ c.r14 ∷ c.r15 ∷ c.rip ∷ c.rflags ∷ c.cs ∷ c.ds ∷ c.es ∷ c.ss ∷ cr2 ∷ cr3
    ∷ c.err ∷ []

module _ {Screen : Type 0} where
  abbrev pub on_cpus : {A : Type 0} → Cmd Cpus A → Cmd (Panic Screen) A
  on_cpus = zoom (λ p. p.cpus) (λ c p. record p { cpus = c })

  -- The terminals' interrupt flag is the CPU's.
  abbrev pub terms_of : Panic Screen → Terms Screen
  terms_of p = record p.terms { interrupts = p.cpus.interrupts }

  abbrev pub with_terms : Terms Screen → Panic Screen → Panic Screen
  with_terms t p = record p { terms = t; cpus = record p.cpus { interrupts = t.interrupts } }

module _ {Screen : Type 0} (flanterm : Flanterm Screen) (format : Formatter)
    (response : Option (List ℕ)) where
  -- `printf` of a format that has become this text
  unfoldable pub print : (text : List ℕ) → Cmd (Panic Screen) ℕ
  print text = zoom terms_of with_terms (vprintf flanterm response text)

  unfoldable pub print_context : Option CpuCtx → Cmd (Panic Screen) (Unit {0})
  print_context none = pure tt
  print_context (some ctx) = do
    cr2 ← gets (λ p. p.cr2)
    cr3 ← gets (λ p. p.cr3)
    print (format cpu_context (dumped ctx cr2 cr3))
    pure tt

  -- The output of `panic`; `message` is what nanoprintf makes of the caller's format.
  unfoldable pub print_report : Option CpuCtx → (message : List ℕ) → Cmd (Panic Screen) (Unit {0})
  print_report ctx message = do
    print (format heading [])
    print (format reason_for [])
    print message
    print (format blank_line [])
    print_context ctx
    print (format system_halted [])
    pure tt

  -- `panic` up to the loop at its end
  unfoldable pub report : Option CpuCtx → (message : List ℕ) → Cmd (Panic Screen) (Unit {0})
  report ctx message = on_cpus stop_machine >> print_report ctx message

  unfoldable pub panic : Option CpuCtx → (message : List ℕ) → Cmd (Panic Screen) (Unit {0})
  panic ctx message = report ctx message >> λ _. spins

  -- `isr_generic_exception_handler`: whatever the segment, the name is the format of the panic.
  unfoldable pub handle_exception : (int_number : ℕ) → CpuCtx → Cmd (Panic Screen) (Unit {0})
  unfolding exception_name
  handle_exception int_number ctx =
      let message = format (named (exception_name int_number)) [] in
      if ctx.cs == gdt_user_code_sel then panic (some ctx) message else panic (some ctx) message

  -- The handlers that the table can hold
  unfoldable pub handle : Handler → (int_number : ℕ) → CpuCtx → Cmd (Panic Screen) (Unit {0})
  handle isr_generic_exception_handler int_number ctx = handle_exception int_number ctx
  handle isr_abort_handler int_number ctx = λ _. spins
  handle sched_isr int_number ctx = on_cpus (on_lapic lapic_timer_stop)
