-- ===== src/Lapic.antt =====
-- kernel/src/sys/lapic.c: the local APIC, by its memory-mapped registers or, in x2APIC mode, by
-- model-specific ones.
pub mod Access
pub mod Ipi
pub mod Timer
pub mod Calibration
pub mod Known
mod Tests
use cynix.Base.{
  ℕ, ◌+◌, ◌*◌, ◌/◌, ◌%◌, ◌^◌, bit_and, bit_or, Bool, ◌==◌, if◌then◌else◌, add64, mul64, update,
  List, ◌∷◌,
}
use cynix.Base.Run.{Cmd, gets, modify, pure, ◌>>=◌, ◌>>◌}

-- `lapic_base` is 0 until it is first needed. A register is at a multiple of 16 behind the base.
-- `sent` holds the interrupts that the APIC has sent, the last one first: destination and vector.
pub record Lapic : Type 0 where
  pub x2apic_mode : Bool
  pub hhdm : ℕ
  pub lapic_base : ℕ
  pub msr : ℕ → ℕ
  pub mmio : ℕ → ℕ
  pub sent : List (ℕ × ℕ)

abbrev pub lapic_reg_icr0 : ℕ
lapic_reg_icr0 = 0x300

abbrev pub lapic_reg_icr1 : ℕ
lapic_reg_icr1 = 0x310

abbrev pub lapic_reg_spurious : ℕ
lapic_reg_spurious = 0x0f0

abbrev pub lapic_reg_eoi : ℕ
lapic_reg_eoi = 0x0b0

abbrev pub lapic_reg_timer : ℕ
lapic_reg_timer = 0x320

abbrev pub lapic_reg_timer_initcnt : ℕ
lapic_reg_timer_initcnt = 0x380

abbrev pub lapic_reg_timer_div : ℕ
lapic_reg_timer_div = 0x3e0

-- The base that the first access reads from register 0x1b
unfoldable pub find_base : Cmd Lapic (Unit {0})
find_base = do
  base ← gets (λ l. l.lapic_base)
  if base == 0
      then modify (λ l. record l { lapic_base = add64 (bit_and (l.msr 0x1b) 0xfffff000) l.hhdm })
      else pure tt

unfoldable pub xapic_read : (reg : ℕ) → Cmd Lapic ℕ
unfolding find_base
xapic_read reg = do find_base; gets (λ l. l.mmio (add64 l.lapic_base (reg / 4 * 4)) % 2 ^ 32)

unfoldable pub x2apic_read : (reg : ℕ) → Cmd Lapic ℕ
x2apic_read reg = gets (λ l. l.msr (0x800 + reg / 2 ^ 4))

-- The hardware sends an interrupt when the low half of the command register is written; its
-- destination is then in the top byte of the high half.
abbrev pub stored : (reg val : ℕ) → Lapic → Lapic
stored reg val l =
    let m = update l.mmio (add64 l.lapic_base (reg / 4 * 4)) (val % 2 ^ 32) in
    let to = m (add64 l.lapic_base lapic_reg_icr1) / 2 ^ 24 in
    record l {
      mmio = m;
      sent = if reg == lapic_reg_icr0 then (to, val % 2 ^ 8) ∷ l.sent else l.sent;
    }

unfoldable pub xapic_write : (reg val : ℕ) → Cmd Lapic (Unit {0})
unfolding find_base
xapic_write reg val = do find_base; modify (stored reg val)

-- In x2APIC mode the command register is one of 64 bits with the destination in its high half.
unfoldable pub x2apic_write : (reg val : ℕ) → Cmd Lapic (Unit {0})
x2apic_write reg val = modify (λ l. record l {
  msr = update l.msr (0x800 + reg / 2 ^ 4) val;
  sent = if reg == lapic_reg_icr0 then (val / 2 ^ 32, val % 2 ^ 8) ∷ l.sent else l.sent;
})

unfoldable pub lapic_read : (reg : ℕ) → Cmd Lapic ℕ
unfolding xapic_read x2apic_read
lapic_read reg = do
  mode ← gets (λ l. l.x2apic_mode)
  if mode then x2apic_read reg else xapic_read reg

unfoldable pub lapic_write : (reg val : ℕ) → Cmd Lapic (Unit {0})
unfolding xapic_write x2apic_write
lapic_write reg val = do
  mode ← gets (λ l. l.x2apic_mode)
  if mode then x2apic_write reg val else xapic_write reg val

unfoldable pub lapic_timer_stop : Cmd Lapic (Unit {0})
unfolding lapic_write
lapic_timer_stop = do lapic_write lapic_reg_timer_initcnt 0; lapic_write lapic_reg_timer (2 ^ 16)

unfoldable pub lapic_timer_oneshot : (lapic_timer_freq vec us : ℕ) → Cmd Lapic (Unit {0})
unfolding lapic_timer_stop lapic_write
lapic_timer_oneshot lapic_timer_freq vec us = do
  lapic_timer_stop
  let ticks = mul64 us (lapic_timer_freq / 1000000)
  lapic_write lapic_reg_timer vec
  lapic_write lapic_reg_timer_div 0b1011
  lapic_write lapic_reg_timer_initcnt ticks

unfoldable pub lapic_enable : (spurious_vec : ℕ) → Cmd Lapic (Unit {0})
unfolding lapic_read lapic_write
lapic_enable spurious_vec = do
  old ← lapic_read lapic_reg_spurious
  lapic_write lapic_reg_spurious (bit_or (bit_or old (2 ^ 8)) spurious_vec)

unfoldable pub lapic_eoi : Cmd Lapic (Unit {0})
unfolding lapic_write
lapic_eoi = lapic_write lapic_reg_eoi 0

unfoldable pub lapic_send_ipi : (lapic_id vec : ℕ) → Cmd Lapic (Unit {0})
unfolding x2apic_write xapic_write
lapic_send_ipi lapic_id vec = do
  mode ← gets (λ l. l.x2apic_mode)
  if mode then x2apic_write lapic_reg_icr0 (bit_or (lapic_id * 2 ^ 32) vec) else (do
    xapic_write lapic_reg_icr1 (lapic_id * 2 ^ 24 % 2 ^ 32)
    xapic_write lapic_reg_icr0 vec)
