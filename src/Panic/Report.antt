-- ===== src/Panic/Report.antt =====
-- What a panic reports: the text on the screen, and which CPUs it stops.
use cynix.Base.{
  ℕ, ◌^◌, ◌<◌, ◌≡◌, refl, sym, ap, subst, ◌∙◌, Bool, true, false, Option, none, some, List, [], ◌∷◌,
  ◌++◌, length,
}
use cynix.Base.Run.{ok, spins, zoom, zoom-ok, >>=-ok}
use cynix.Cpu.Context.{CpuCtx}
use cynix.Mp.{Cpus, stop_machine}
use cynix.Mp.Panic.{AreBytes, stops, stop_machine-stops}
use cynix.Panic.{
  heading, reason_for, blank_line, cpu_context, system_halted, Formatter, Panic, dumped, on_cpus,
  terms_of, with_terms, print, print_context, print_report, report, panic,
}
use cynix.Term.{Flanterm, vprintf}
use cynix.Term.Output.{drawn, IsIdle, vprintf-Printed}

module _ {Screen : Type 0} (flanterm : Flanterm Screen) where
  drawn-++ :
      (ctx : ℕ) (a b : List ℕ) (s : Screen)
      → drawn flanterm ctx (a ++ b) s ≡ drawn flanterm ctx b (drawn flanterm ctx a s)
  drawn-++ ctx [] b s = refl
  drawn-++ ctx (c ∷ cs) b s = drawn-++ ctx cs b (flanterm.write ctx (c ∷ []) s)

  -- The text is on the screen of terminal 0, and nothing else has changed.
  pub record Says (p : Panic Screen) (text : List ℕ) (q : Panic Screen) : Type 0 where
    pub idle : IsIdle flanterm q.terms
    pub free : q.terms.printf_lock ≡ false
    pub screen : q.terms.screen ≡ drawn flanterm (p.terms.ft_ctx 0) text p.terms.screen
    pub contexts : q.terms.ft_ctx ≡ p.terms.ft_ctx
    pub cpus : q.cpus ≡ p.cpus
    pub cr2 : q.cr2 ≡ p.cr2
    pub cr3 : q.cr3 ≡ p.cr3

  Says-trans : {p q r : Panic Screen} (a b : List ℕ) → Says p a q → Says q b r → Says p (a ++ b) r
  Says-trans {p} {q} a b first second = record {
    idle = second.idle;
    free = second.free;
    screen =
        second.screen
        ∙ ap (λ (f : ℕ → ℕ). drawn flanterm (f 0) b q.terms.screen) first.contexts
        ∙ ap (drawn flanterm (p.terms.ft_ctx 0) b) first.screen
        ∙ sym (drawn-++ (p.terms.ft_ctx 0) a b p.terms.screen);
    contexts = second.contexts ∙ first.contexts;
    cpus = second.cpus ∙ first.cpus;
    cr2 = second.cr2 ∙ first.cr2;
    cr3 = second.cr3 ∙ first.cr3;
  }

  module _ (format : Formatter) (response : Option (List ℕ)) where
    -- The values of the dump: the general registers, the place of the fault, the segments, the
    -- control registers of the CPU, and the error code
    abbrev pub registers : CpuCtx → (cr2 cr3 : ℕ) → List ℕ
    registers c cr2 cr3 =
        (c.rax ∷ c.rbx ∷ c.rcx ∷ c.rdx ∷ c.rsi ∷ c.rdi ∷ c.rbp ∷ c.rsp ∷ [])
        ++ (c.r8 ∷ c.r9 ∷ c.r10 ∷ c.r11 ∷ c.r12 ∷ c.r13 ∷ c.r14 ∷ c.r15 ∷ [])
        ++ (c.rip ∷ c.rflags ∷ c.cs ∷ c.ds ∷ c.es ∷ c.ss ∷ [])
        ++ (cr2 ∷ cr3 ∷ c.err ∷ [])

    -- The dump of the context
    abbrev pub context_text : Option CpuCtx → (cr2 cr3 : ℕ) → List ℕ
    context_text none cr2 cr3 = []
    context_text (some ctx) cr2 cr3 = format cpu_context (registers ctx cr2 cr3)

    print-Says :
        (p : Panic Screen) (text : List ℕ)
        → IsIdle flanterm p.terms
        → p.terms.printf_lock ≡ false
        → (q : Panic Screen) × (print flanterm format response text p ≡ ok (length text) q)
          × Says p text q
    unfolding print
    print-Says p text h free =
        let (u, e, printed) =
          vprintf-Printed flanterm response text (terms_of p)
            (record { opened = h.opened; unlocked = h.unlocked; context = h.context }) free in
        (
          with_terms u p,
          zoom-ok terms_of with_terms (vprintf flanterm response text) {s = p} e,
          record {
            idle = printed.idle;
            free = printed.printf ∙ free;
            screen = printed.screen;
            contexts = printed.contexts;
            cpus = ap (λ (on : Bool). record p.cpus { interrupts = on }) printed.flag;
            cr2 = refl;
            cr3 = refl;
          },
        )

    print_context-Says :
        (ctx : Option CpuCtx) (p : Panic Screen)
        → IsIdle flanterm p.terms
        → p.terms.printf_lock ≡ false
        → (q : Panic Screen) × (print_context flanterm format response ctx p ≡ ok tt q)
          × Says p (context_text ctx p.cr2 p.cr3) q
    unfolding print_context dumped
    print_context-Says none p h free = (
      p,
      refl,
      record {
        idle = h;
        free = free;
        screen = refl;
        contexts = refl;
        cpus = refl;
        cr2 = refl;
        cr3 = refl;
      },
    )
    print_context-Says (some ctx) p h free =
        let (q, e, said) = print-Says p (format cpu_context (dumped ctx p.cr2 p.cr3)) h free in
        (q, rw e, said)

    -- What the report says, in order
    abbrev pub report_text : Option CpuCtx → (message : List ℕ) → (cr2 cr3 : ℕ) → List ℕ
    report_text ctx message cr2 cr3 =
        format heading []
        ++ (format reason_for []
            ++ (message
                ++ (format blank_line [] ++ (context_text ctx cr2 cr3 ++ format system_halted []))))

    printed-Says :
        (ctx : Option CpuCtx) (message : List ℕ) (p : Panic Screen)
        → IsIdle flanterm p.terms
        → p.terms.printf_lock ≡ false
        → (q : Panic Screen) × (print_report flanterm format response ctx message p ≡ ok tt q)
          × Says p (report_text ctx message p.cr2 p.cr3) q
    unfolding print_report
    printed-Says ctx message p h free =
        let (p₁, e₁, s₁) = print-Says p (format heading []) h free in
        let (p₂, e₂, s₂) = print-Says p₁ (format reason_for []) s₁.idle s₁.free in
        let (p₃, e₃, s₃) = print-Says p₂ message s₂.idle s₂.free in
        let (p₄, e₄, s₄) = print-Says p₃ (format blank_line []) s₃.idle s₃.free in
        let (p₅, e₅, s₅) = print_context-Says ctx p₄ s₄.idle s₄.free in
        let (p₆, e₆, s₆) = print-Says p₅ (format system_halted []) s₅.idle s₅.free in
        let same : context_text ctx p₄.cr2 p₄.cr3 ≡ context_text ctx p.cr2 p.cr3 =
          ap (λ (r : ℕ). context_text ctx r p₄.cr3) (s₄.cr2 ∙ s₃.cr2 ∙ s₂.cr2 ∙ s₁.cr2)
          ∙ ap (context_text ctx p.cr2) (s₄.cr3 ∙ s₃.cr3 ∙ s₂.cr3 ∙ s₁.cr3) in
        (
          p₆,
          rw (e₁, e₂, e₃, e₄, e₅, e₆),
          Says-trans (format heading []) _ s₁ (
              Says-trans (format reason_for []) _ s₂ (
                Says-trans message _ s₃ (
                  Says-trans (format blank_line []) _ s₄ (
                    Says-trans (context_text ctx p.cr2 p.cr3) (format system_halted [])
                      (subst (λ text. Says p₄ text p₅) same s₅) s₆)))),
        )

    -- Once the CPUs are started, where the abort vector and every local APIC's number fit a byte,
    -- the panic lock and the lock of `printf` are free, and the terminals are open and idle, the
    -- first one with a context: a panic on any CPU turns interrupts off, sends the abort vector to
    -- every CPU but the one that booted, in order, and to no other, and writes on terminal 0 the
    -- heading, the message, the dump of the context with CR2 and CR3 if there is a context, and
    -- the end, in this order; after it, every other panic spins for ever.
    pub report-Says :
        (ctx : Option CpuCtx) (message : List ℕ) (p : Panic Screen)
        → IsIdle flanterm p.terms
        → p.terms.printf_lock ≡ false
        → p.cpus.isr_abort_vector < 2 ^ 8
        → p.cpus.mp_init_done ≡ true
        → p.cpus.panic_lock ≡ false
        → AreBytes p.cpus.cpu_locals
        → (q : Panic Screen) × (report flanterm format response ctx message p ≡ ok tt q)
          × (q.terms.screen
              ≡ drawn flanterm
                  (p.terms.ft_ctx 0)
                  (report_text ctx message p.cr2 p.cr3)
                  p.terms.screen)
          × (q.cpus.interrupts ≡ false)
          × (q.cpus.lapic.sent ≡ stops p.cpus.isr_abort_vector p.cpus.cpu_locals p.cpus.lapic.sent)
          × ((ctx' : Option CpuCtx) (message' : List ℕ)
              → panic flanterm format response ctx' message' q ≡ spins)
    unfolding report panic
    report-Says ctx message p h free byte started lock bytes =
        let (c, stop, off, sent, again) = stop_machine-stops p.cpus byte started lock bytes in
        let p₁ : Panic Screen = record p { cpus = c } in
        let (q, e, said) = printed-Says ctx message p₁ h free in
        let stopped : on_cpus stop_machine p ≡ ok tt p₁ =
          zoom-ok (λ (p : Panic Screen). p.cpus) (λ c p. record p { cpus = c }) stop_machine {s = p}
            stop in
        (
          q,
          >>=-ok (on_cpus stop_machine) (λ _. print_report flanterm format response ctx message)
                {s = p} stopped
              ∙ e,
          said.screen,
          ap (λ (c : Cpus). c.interrupts) said.cpus ∙ off,
          ap (λ (c : Cpus). c.lapic.sent) said.cpus ∙ sent,
          λ ctx' message'.
              let held : stop_machine q.cpus ≡ spins = ap stop_machine said.cpus ∙ again in
              rw (panic, report, zoom, held),
        )
