-- ===== src/Lapic/Timer.antt =====
-- `lapic_timer_calibrate` of kernel/src/sys/lapic.c.
use cynix.Base.{
  ℕ, zero, suc, ◌/◌, ◌^◌, bit_or, Option, none, some, List, [], ◌∷◌, ltb, ◌==◌, if◌then◌else◌,
  sub64, mul64,
}
use cynix.Base.Run.{Cmd, spins, gets, modify, pure, zoom, ◌>>=◌, ◌>>◌}
use cynix.Cpu.Fpu.{Leaf, Leaves, cpuid}
use cynix.Lapic.{
  Lapic, lapic_reg_timer, lapic_reg_timer_initcnt, lapic_reg_timer_div, lapic_read, lapic_write,
  lapic_timer_stop,
}
use cynix.Pit.{Ports, pit_dividend, pit_get_current_count, pit_set_reload_value}

abbrev pub lapic_reg_timer_curcnt : ℕ
lapic_reg_timer_curcnt = 0x390

-- The local APIC, the ports of the interval timer, the values that the register of the current count
-- answers one after the other, and the member that the calibration sets.
pub record Timer : Type 0 where
  pub lapic : Lapic
  pub ports : Ports
  pub counts : List ℕ
  pub lapic_timer_freq : ℕ

abbrev pub on_lapic : {A : Type 0} → Cmd Lapic A → Cmd Timer A
on_lapic = zoom (λ t. t.lapic) (λ l t. record t { lapic = l })

abbrev pub on_ports : {A : Type 0} → Cmd Ports A → Cmd Timer A
on_ports = zoom (λ t. t.ports) (λ p t. record t { ports = p })

unfoldable pub set_freq : ℕ → Cmd Timer (Unit {0})
set_freq freq = modify (λ t. record t { lapic_timer_freq = freq })

-- The inner loop; a timer that never answers 0 keeps it running.
unfoldable pub wait_for_zero : (counts : List ℕ) → Cmd Timer (Unit {0})
wait_for_zero [] = λ _. spins
wait_for_zero (c ∷ cs) = do
  on_lapic (lapic_read lapic_reg_timer_curcnt)
  modify (λ t. record t { counts = cs })
  if c == 0 then pure tt else wait_for_zero cs

-- One round of the outer loop, up to `pit_ticks`
unfoldable pub measure : (samples : ℕ) → Cmd Timer ℕ
measure samples = do
  on_ports (pit_set_reload_value 0xfff0)
  initial_pit_tick ← on_ports pit_get_current_count
  on_lapic (lapic_write lapic_reg_timer_initcnt samples)
  counts ← gets (λ t. t.counts)
  wait_for_zero counts
  final_pit_tick ← on_ports pit_get_current_count
  pure (sub64 initial_pit_tick final_pit_tick)

-- The outer loop, for at most so many rounds
unfoldable pub measure_until : (rounds samples : ℕ) → Cmd Timer (Unit {0})
measure_until zero samples = λ _. spins
measure_until (suc n) samples = do
  pit_ticks ← measure samples
  let again = measure_until n (mul64 samples 2)
  if ltb pit_ticks 0x4000 then again else set_freq (mul64 (samples / pit_ticks) pit_dividend)

unfoldable pub calibrate_by_pit : (rounds : ℕ) → Cmd Timer (Unit {0})
calibrate_by_pit rounds = measure_until rounds 16 >> on_lapic lapic_timer_stop

unfoldable pub calibrate_by_leaf : (rounds : ℕ) → Option Leaf → Cmd Timer (Unit {0})
calibrate_by_leaf rounds none = calibrate_by_pit rounds
calibrate_by_leaf rounds (some l) = if l.ecx == 0 then calibrate_by_pit rounds else set_freq l.ecx

unfoldable pub lapic_timer_calibrate : Leaves → (rounds : ℕ) → Cmd Timer (Unit {0})
lapic_timer_calibrate leaves rounds = do
  on_lapic lapic_timer_stop
  on_lapic (lapic_write lapic_reg_timer (bit_or (2 ^ 16) 0xff))
  on_lapic (lapic_write lapic_reg_timer_div 0b1011)
  calibrate_by_leaf rounds (cpuid leaves 0x15 0)
