-- ===== src/Lapic/Tests.antt =====
-- An interrupt to CPU 5 in xAPIC mode, with the base not yet known.
use native.Mathlib.Nat.{mul_assoc, mul-le-mul_left, one-le-pow}
use cynix.Base.{
  ℕ, zero, suc, ◌-◌, ◌*◌, ◌/◌, ◌^◌, ◌≤◌, ◌≡◌, refl, ap, ◌∙◌, false, List, [], ◌∷◌, arith,
}
use cynix.Base.Run.{ok}
use cynix.Cpu.Fpu.{Leaves, cpuid}
use cynix.Lapic.Access.{IsStopped}
use cynix.Lapic.Calibration.{two_bytes, Measures, last, again, lapic_timer_calibrate-exact}
use cynix.Lapic.Timer.{Timer, lapic_timer_calibrate}
use cynix.Lapic.{Lapic, lapic_send_ipi}
use cynix.Lapic.Ipi.{Sends, lapic_send_ipi-Sends}

abbrev demo : Lapic
demo = record {
  x2apic_mode = false;
  hhdm = 0xffff_8000_0000_0000;
  lapic_base = 0;
  msr = λ r. 0xfee0_0900;
  mmio = λ a. 0;
  sent = [];
}

lapic_send_ipi-Sends_example : Sends demo 5 0x20 (lapic_send_ipi 5 0x20 demo)
lapic_send_ipi-Sends_example = lapic_send_ipi-Sends demo 5 0x20 (omega arith) (omega arith)

-- A timer that counts 16 times for a tick of the interval timer: 16 samples take one tick, and
-- fourteen doublings take it to 2 ^ 14.
abbrev bytes : (n ticks : ℕ) → List ℕ
bytes zero ticks = two_bytes 0xfff0 (two_bytes (0xfff0 - ticks) [])
bytes (suc n) ticks = two_bytes 0xfff0 (two_bytes (0xfff0 - ticks) (bytes n (ticks * 2)))

abbrev counts : (n : ℕ) → List ℕ
counts zero = 3 ∷ 0 ∷ []
counts (suc n) = 3 ∷ 0 ∷ counts n

measures :
    (n ticks samples : ℕ)
    → ticks * 2 ^ n ≡ 2 ^ 14
    → samples ≡ 16 * ticks
    → Measures 16 samples (bytes n ticks) (counts n)
measures zero ticks samples e s =
    let q : samples / 16 ≡ ticks = omega arith in
    last 0xfff0 [] [] (omega arith) (omega arith) (omega arith) (rw q refl) refl
measures (suc n) ticks samples e s =
    let q : samples / 16 ≡ ticks = omega arith in
    let next : ticks * 2 * 2 ^ n ≡ 2 ^ 14 =
      mul_assoc ticks 2 (2 ^ n) ∙ ap (λ (p : ℕ). ticks * p) {y = 2 ^ suc n} (omega arith) ∙ e in
    let positive : 1 ≤ 2 ^ n = one-le-pow n 2 (omega arith) in
    let grows : ticks * 2 * 1 ≤ ticks * 2 * 2 ^ n = mul-le-mul_left (ticks * 2) positive in
    again 0xfff0 (bytes n (ticks * 2)) (counts n) (omega arith) (omega arith) (omega arith)
      (rw q refl) refl (measures n (ticks * 2) (samples * 2) next (omega arith))

abbrev silent : Leaves
silent leaf subleaf = record { eax = 0; ebx = 0; ecx = 0; edx = 0 }

abbrev demo_timer : Timer
demo_timer = record {
  lapic = demo;
  ports = record { written = []; to_read = bytes 14 1 };
  counts = counts 14;
  lapic_timer_freq = 0;
}

lapic_timer_calibrate-exact_example :
    (t' : Timer) × (lapic_timer_calibrate silent 25 demo_timer ≡ ok tt t')
    × (t'.lapic_timer_freq ≡ 16 * 1193182)
    × IsStopped t'.lapic
unfolding cpuid
lapic_timer_calibrate-exact_example =
    lapic_timer_calibrate-exact 16 (omega arith) (omega arith) silent 25 demo_timer
      (λ l e. absurd (cc)) (omega arith) (measures 14 1 16 (omega arith) (omega arith))
