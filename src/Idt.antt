-- ===== src/Idt.antt =====
-- kernel/src/sys/idt.c and isr.c, and the vector that proc/sched.c takes: the interrupt gates, the
-- allocation of vectors and the table of handlers.
pub mod Gates
pub mod Vectors
mod Tests
use cynix.Base.{ℕ, zero, suc, ◌+◌, ◌/◌, ◌%◌, ◌^◌, Bool, Option, some, ◌==◌, if◌then◌else◌, update}
use cynix.Base.Run.{Cmd, ok, idt_exhausted, gets, modify, pure, fail, zoom, ◌>>=◌, ◌>>◌}
use cynix.Gdt.{gdt_kernel_code_sel}
use cynix.Spinlock.{spinlock_acquire, spinlock_release}

pub record IdtDescriptor : Type 0 where
  pub base_low16 : ℕ
  pub selector : ℕ
  pub ist : ℕ
  pub flags : ℕ
  pub base_mid16 : ℕ
  pub base_high32 : ℕ
  pub reserved : ℕ

-- The functions whose addresses the handler table holds.
pub data Handler : Type 0 where
  isr_generic_exception_handler isr_abort_handler sched_isr : Handler

-- The statics of idt.c, isr.c and sched.c, and the interrupt flag of the CPU.
pub record Idt : Type 0 where
  pub interrupts : Bool
  pub idt : ℕ → IdtDescriptor
  pub idt_lock : Bool
  pub idt_free_vector : ℕ
  pub isr_handler_table : ℕ → Option Handler
  pub isr_abort_vector : ℕ
  pub sched_vector : ℕ

abbrev pub cpu_abort_ist : ℕ
cpu_abort_ist = 1

-- The members have 16, 8 and 32 bits, so the stores truncate.
unfoldable pub gate : (isr ist flags : ℕ) → IdtDescriptor
gate isr ist flags = record {
  base_low16 = isr % 2 ^ 16;
  selector = gdt_kernel_code_sel;
  ist = ist;
  flags = flags;
  base_mid16 = isr / 2 ^ 16 % 2 ^ 16;
  base_high32 = isr / 2 ^ 32 % 2 ^ 32;
  reserved = 0;
}

unfoldable pub idt_set_handler : (vector isr ist flags : ℕ) → Cmd Idt (Unit {0})
unfolding gate
idt_set_handler vector isr ist flags =
    modify (λ s. record s { idt = update s.idt vector (gate isr ist flags) })

unfoldable pub idt_set_ist : (vector ist : ℕ) → Cmd Idt (Unit {0})
idt_set_ist vector ist =
    modify (λ s. record s { idt = update s.idt vector (record (s.idt vector) { ist = ist }) })

abbrev on_lock : Cmd Bool (Unit {0}) → Cmd Idt (Unit {0})
on_lock = zoom (λ s. s.idt_lock) (λ lock s. record s { idt_lock = lock })

unfoldable pub idt_allocate_vector : Cmd Idt ℕ
unfolding spinlock_acquire spinlock_release
idt_allocate_vector = do
  on ← gets (λ s. s.interrupts)
  on_lock (spinlock_acquire on)
  ret ← gets (λ s. s.idt_free_vector)
  if ret == 0xf0 then fail idt_exhausted else pure tt
  modify (λ s. record s { idt_free_vector = (ret + 1) % 2 ^ 8 })
  on_lock spinlock_release
  pure ret

unfoldable pub set_entry : (vector : ℕ) → Handler → Cmd Idt (Unit {0})
set_entry vector h =
    modify (λ s. record s { isr_handler_table = update s.isr_handler_table vector (some h) })

-- `isr_thunks` is the table of addresses that isr.S lays out.
module _ (isr_thunks : ℕ → ℕ) where
  -- Both loops of `isr_init`, from vector `i` for `n` rounds.
  unfoldable pub set_vectors : (i n : ℕ) → Cmd Idt (Unit {0})
  unfolding idt_set_handler set_entry
  set_vectors i zero = pure tt
  set_vectors i (suc n) = do
    idt_set_handler i (isr_thunks i) 0 0x8e
    set_entry i isr_generic_exception_handler
    set_vectors (i + 1) n

  unfoldable pub isr_init : Cmd Idt (Unit {0})
  unfolding set_vectors idt_allocate_vector idt_set_handler set_entry
  isr_init = do
    set_vectors 0 32
    set_vectors 32 224
    vector ← idt_allocate_vector
    modify (λ s. record s { isr_abort_vector = vector })
    idt_set_handler vector (isr_thunks vector) cpu_abort_ist 0x8e
    set_entry vector isr_abort_handler

unfoldable pub sched_init : Cmd Idt (Unit {0})
unfolding idt_allocate_vector set_entry
sched_init = do
  vector ← idt_allocate_vector
  modify (λ s. record s { sched_vector = vector })
  set_entry vector sched_isr
