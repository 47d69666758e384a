-- ===== src/Mp/Panic.antt =====
-- Which CPUs a panic stops.
use cynix.Base.{
  ℕ, ◌^◌, ◌<◌, ◌≡◌, refl, ap, ◌∙◌, Bool, true, false, Bool-cases, inl, inr, List, [], ◌∷◌,
  if◌then◌else◌, arith,
}
use cynix.Base.Run.{ok, spins, pure, zoom, zoom-ok}
use cynix.Lapic.{Lapic, lapic_send_ipi}
use cynix.Lapic.Ipi.{Sends, sends, lapic_send_ipi-Sends}
use cynix.Spinlock.{spinlock_acquire, spinlock_test_acq, compare_and_swap}
use cynix.Mp.Local.{CpuLocal}
use cynix.Mp.{Cpus, on_lapic, stop_others, stop_machine}

-- The interrupts to all CPUs but the one that booted, the last one first, before those sent earlier
abbrev pub stops : (vector : ℕ) → List CpuLocal → List (ℕ × ℕ) → List (ℕ × ℕ)
stops vector [] sent = sent
stops vector (c ∷ cs) sent =
    stops vector cs (if c.is_bsp then sent else (c.lapic_id, vector) ∷ sent)

-- Every id fits a byte, as xAPIC mode needs.
abbrev pub AreBytes : List CpuLocal → Type 0
AreBytes [] = Unit
AreBytes (c ∷ cs) = (c.lapic_id < 2 ^ 8) × AreBytes cs

module _ (vector : ℕ) (byte : vector < 2 ^ 8) where
  abbrev Stops : List CpuLocal → Lapic → Type 0
  Stops cs l = (m : Lapic) × (stop_others vector cs l ≡ ok tt m) × (m.sent ≡ stops vector cs l.sent)

  stop_others-bsp :
      (c : CpuLocal) (cs : List CpuLocal) (l : Lapic)
      → c.is_bsp ≡ true
      → Stops cs l
      → Stops (c ∷ cs) l
  unfolding stop_others
  stop_others-bsp c cs l e (m, r, s) = (m, rw e r, rw e s)

  stop_others-other :
      (c : CpuLocal) (cs : List CpuLocal) (l : Lapic)
      → c.is_bsp ≡ false
      → Sends l c.lapic_id vector (lapic_send_ipi c.lapic_id vector l)
      → ((l' : Lapic) → Stops cs l')
      → Stops (c ∷ cs) l
  unfolding stop_others
  stop_others-other c cs l e (sends l' send sent) rest =
      let (m, r, s) = rest l' in (m, rw (e, send) r, rw e (s ∙ ap (stops vector cs) sent))

  stop_others-Stops : (cs : List CpuLocal) (l : Lapic) → AreBytes cs → Stops cs l
  unfolding stop_others
  stop_others-Stops [] l b = (l, refl, refl)
  stop_others-Stops (c ∷ cs) l (lt, b) = elim (Bool-cases c.is_bsp) [
    | inl e ↦ stop_others-bsp c cs l e (stop_others-Stops cs l b)
    | inr e ↦
        stop_others-other c cs l e
          (lapic_send_ipi-Sends l c.lapic_id vector byte
            (elim (Bool-cases l.x2apic_mode) [ inl on ↦ ground arith | inr off ↦ ground arith ]))
          (λ l'. stop_others-Stops cs l' b)
  ]

stopped : (c : Cpus) (m : Lapic) → Cpus
stopped c m = record c { interrupts = false; panic_lock = true; lapic = m }

stop_machine-started :
    (c : Cpus) (m : Lapic)
    → c.mp_init_done ≡ true
    → c.panic_lock ≡ false
    → stop_others c.isr_abort_vector c.cpu_locals c.lapic ≡ ok tt m
    → stop_machine c ≡ ok tt (stopped c m)
unfolding stop_machine stopped spinlock_acquire spinlock_test_acq compare_and_swap
stop_machine-started c m started free r =
    rw (stop_machine, zoom, free)
      (ap
          (λ (b : Bool).
            (if b then on_lapic (stop_others c.isr_abort_vector c.cpu_locals) else pure tt)
              (record c { interrupts = false; panic_lock = true }))
          started
        ∙ zoom-ok (λ (c : Cpus). c.lapic) (λ l c. record c { lapic = l })
            (stop_others c.isr_abort_vector c.cpu_locals) r)

-- Once the CPUs are started, where the abort vector and every local APIC's number fit a byte and
-- the panic lock is free, a panic on any CPU takes the panic lock with interrupts off, and sends
-- the abort vector to every CPU but the one that booted, in order, and to no other; a second panic
-- spins for ever.
pub stop_machine-stops :
    (c : Cpus)
    → c.isr_abort_vector < 2 ^ 8
    → c.mp_init_done ≡ true
    → c.panic_lock ≡ false
    → AreBytes c.cpu_locals
    → (d : Cpus) × (stop_machine c ≡ ok tt d)
      × (d.interrupts ≡ false)
      × (d.lapic.sent ≡ stops c.isr_abort_vector c.cpu_locals c.lapic.sent)
      × (stop_machine d ≡ spins)
unfolding stop_machine stopped spinlock_acquire spinlock_test_acq compare_and_swap
stop_machine-stops c byte started free bytes =
    let (m, r, s) = stop_others-Stops c.isr_abort_vector byte c.cpu_locals c.lapic bytes in
    (stopped c m, stop_machine-started c m started free r, refl, s, refl)
