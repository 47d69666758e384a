-- ===== src/Lapic/Known.antt =====
-- The local APIC of a CPU that reports the frequency of its timer.
use cynix.Base.{ℕ, ◌^◌, ◌≤◌, ◌≡◌, refl, ◌∙◌, ◌≢◌, bit_or, some, ==_false, arith}
use cynix.Base.Run.{ok, zoom}
use cynix.Cpu.Fpu.{Leaf, Leaves, cpuid}
use cynix.Lapic.{
  Lapic, lapic_reg_spurious, lapic_reg_timer, lapic_reg_timer_initcnt, lapic_reg_timer_div,
  lapic_enable,
}
use cynix.Lapic.Access.{
  written, lapic_write_lem, written-msr, stopped, lapic_timer_stop_lem, lapic_read_lem,
}
use cynix.Lapic.Timer.{Timer, set_freq, calibrate_by_leaf, lapic_timer_calibrate}

-- The registers other than the APIC's own are as before.
abbrev pub KeepsHigh : Lapic → Lapic → Type 0
KeepsHigh l l' = (k : ℕ) → 0x900 ≤ k → l'.msr k ≡ l.msr k

pub lapic_enable-KeepsHigh :
    (vec : ℕ) (l : Lapic) → (l' : Lapic) × (lapic_enable vec l ≡ ok tt l') × KeepsHigh l l'
unfolding lapic_enable
lapic_enable-KeepsHigh vec l =
    let (v, l₁, e, same) = lapic_read_lem lapic_reg_spurious l in
    let new = bit_or (bit_or v (2 ^ 8)) vec in
    (
      written lapic_reg_spurious new l₁,
      rw (lapic_enable, e, lapic_write_lem lapic_reg_spurious new l₁),
      λ k le. written-msr lapic_reg_spurious new l₁ k (omega arith) le ∙ same k,
    )

pub lapic_timer_calibrate-known :
    (leaves : Leaves) (rounds : ℕ) (t : Timer) (x : Leaf)
    → cpuid leaves 0x15 0 ≡ some x
    → x.ecx ≢ 0
    → (t' : Timer) × (lapic_timer_calibrate leaves rounds t ≡ ok tt t')
      × (t'.lapic_timer_freq ≡ x.ecx)
      × KeepsHigh t.lapic t'.lapic
unfolding lapic_timer_calibrate calibrate_by_leaf set_freq
lapic_timer_calibrate-known leaves rounds t x known pos =
    let masked = bit_or (2 ^ 16) 0xff in
    let zero = written lapic_reg_timer_initcnt 0 t.lapic in
    let off = stopped t.lapic in
    let set = written lapic_reg_timer masked off in
    let done = written lapic_reg_timer_div 0b1011 set in
    (
      record t { lapic = done; lapic_timer_freq = x.ecx },
      rw (
        lapic_timer_calibrate,
        zoom,
        lapic_timer_stop_lem t.lapic,
        lapic_write_lem lapic_reg_timer masked off,
        lapic_write_lem lapic_reg_timer_div 0b1011 set,
        known,
        ==_false x.ecx 0 pos,
      ),
      refl,
      λ k le.
          written-msr lapic_reg_timer_div 0b1011 set k (omega arith) le
          ∙ written-msr lapic_reg_timer masked off k (omega arith) le
          ∙ written-msr lapic_reg_timer (2 ^ 16) zero k (omega arith) le
          ∙ written-msr lapic_reg_timer_initcnt 0 t.lapic k (omega arith) le,
    )
