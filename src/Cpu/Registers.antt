-- ===== src/Cpu/Registers.antt =====
-- What is written to a register is what is read from it.
use cynix.Base.{
  ℕ, ◌+◌, ◌*◌, ◌/◌, ◌%◌, ◌^◌, ◌<◌, ◌≡◌, refl, sym, ◌≢◌, bit_or, update, update_self, update_ne,
  word_mod, arith,
}
use cynix.Base.Bits.{bit_or_low}
use cynix.Base.Run.{ok}
use cynix.Cpu.{Cpu, rdtsc, rdmsr, wrmsr}

joined_lem : (v : ℕ) → v < word_mod → bit_or (v / 2 ^ 32 % 2 ^ 32 * 2 ^ 32) (v % 2 ^ 32) ≡ v
joined_lem v lt = omega (arith, bit_or_low 32 (v / 2 ^ 32 % 2 ^ 32) (v % 2 ^ 32) (omega arith))

abbrev pub wrote : Cpu → (reg val : ℕ) → Cpu
wrote c reg val = record c { msr = update c.msr reg val }

module _ (reg val : ℕ) (lt : val < word_mod) (c : Cpu) where
  wrmsr_lem : wrmsr reg val c ≡ ok val (wrote c reg val)
  unfolding wrmsr
  wrmsr_lem =
      let whole : val / 2 ^ 32 % 2 ^ 32 * 2 ^ 32 + val % 2 ^ 32 ≡ val = omega arith in
      rw (whole, joined_lem val lt)

  -- `wrmsr` of a 64-bit value returns the value, `rdmsr` of the same register then reads it, and
  -- no other register changes.
  pub rdmsr-wrmsr :
      (wrmsr reg val c ≡ ok val (wrote c reg val))
      × (rdmsr reg (wrote c reg val) ≡ ok val (wrote c reg val))
      × ((other : ℕ) → other ≢ reg → (wrote c reg val).msr other ≡ c.msr other)
  unfolding rdmsr
  rdmsr-wrmsr = (
    wrmsr_lem,
    rw (update_self c.msr reg val, joined_lem val lt) refl,
    λ other ne. update_ne c.msr val (λ e. ne (sym e)),
  )

-- For a 64-bit time-stamp counter, `rdtsc` returns the counter's high half in both halves of its
-- result, and nothing of the low half.
pub rdtsc-blind :
    (c : Cpu) → c.tsc < word_mod → rdtsc c ≡ ok (c.tsc / 2 ^ 32 * 2 ^ 32 + c.tsc / 2 ^ 32) c
unfolding rdtsc
rdtsc-blind c lt =
    let high : c.tsc / 2 ^ 32 % 2 ^ 32 ≡ c.tsc / 2 ^ 32 = omega arith in
    rw (high, bit_or_low 32 (c.tsc / 2 ^ 32) (c.tsc / 2 ^ 32) (omega arith))
