-- ===== src/Mp.antt =====
-- The parts of kernel/src/sys/cpu.c and lib/panic.c that go over the CPUs.
pub mod Local
pub mod Panic
pub mod Kernel
pub mod Boot
pub mod Start
pub mod Up
pub mod Started
pub mod Init
mod Tests
mod BootTests
use cynix.Base.{
  ℕ, zero, suc, ◌+◌, ◌-◌, ◌*◌, Bool, true, false, Option, none, some, List, [], ◌∷◌, if◌then◌else◌,
}
use cynix.Base.Run.{Cmd, interrupts_enabled, gets, modify, pure, fail, zoom, ◌>>=◌, ◌>>◌}
use cynix.Lapic.{Lapic, lapic_send_ipi}
use cynix.Mp.Local.{CpuLocal}
use cynix.Spinlock.{spinlock_acquire}

-- The interrupt flag and the local APIC of the CPU that runs, the number at `%gs:8`, and what is
-- shared. `cpu_locals` is the vector's items.
pub record Cpus : Type 0 where
  pub interrupts : Bool
  pub lapic : Lapic
  pub running_on : ℕ
  pub cpu_locals : List CpuLocal
  pub mp_init_done : Bool
  pub isr_abort_vector : ℕ
  pub panic_lock : Bool

-- `VECTOR_ITEM`; `none` is the invalid item.
unfoldable pub item : List CpuLocal → (index : ℕ) → Option CpuLocal
item [] index = none
item (c ∷ cs) zero = some c
item (c ∷ cs) (suc i) = item cs i

unfoldable pub cpu_current : Cmd Cpus (Option CpuLocal)
unfolding item
cpu_current = do
  on ← gets (λ c. c.interrupts)
  if on then fail interrupts_enabled else gets (λ c. item c.cpu_locals c.running_on)

-- `VECTOR_FOR_EACH` in `panic`
unfoldable pub stop_others : (vector : ℕ) → List CpuLocal → Cmd Lapic (Unit {0})
unfolding lapic_send_ipi
stop_others vector [] = pure tt
stop_others vector (c ∷ cs) =
    (if c.is_bsp then pure tt else lapic_send_ipi c.lapic_id vector) >> stop_others vector cs

abbrev pub on_lapic : {A : Type 0} → Cmd Lapic A → Cmd Cpus A
on_lapic = zoom (λ c. c.lapic) (λ l c. record c { lapic = l })

-- `panic` up to its output; it then halts for ever.
unfoldable pub stop_machine : Cmd Cpus (Unit {0})
unfolding spinlock_acquire stop_others
stop_machine = do
  modify (λ c. record c { interrupts = false })
  zoom (λ c. c.panic_lock) (λ held c. record c { panic_lock = held }) (spinlock_acquire false)
  done ← gets (λ c. c.mp_init_done)
  locals ← gets (λ c. c.cpu_locals)
  vector ← gets (λ c. c.isr_abort_vector)
  if done then on_lapic (stop_others vector locals) else pure tt
