-- ===== src/Cpu.antt =====
-- kernel/src/sys/cpu.k.h: the instructions that it wraps, on the registers of one CPU.
pub mod Registers
pub mod Fpu
pub mod Xcr0
pub mod Features
pub mod Context
mod Tests
use cynix.Base.{
  ℕ, ◌+◌, ◌*◌, ◌/◌, ◌%◌, ◌^◌, bit_and, bit_or, Bool, true, false, ltb, if◌then◌else◌, update,
}
use cynix.Base.Run.{Cmd, gets, modify, pure, ◌>>=◌, ◌>>◌}

pub record Cpu : Type 0 where
  pub cr0 : ℕ
  pub cr2 : ℕ
  pub cr3 : ℕ
  pub cr4 : ℕ
  -- the time-stamp counter
  pub tsc : ℕ
  -- model-specific and extended control registers, by their number
  pub msr : ℕ → ℕ
  pub xcr : ℕ → ℕ

unfoldable pub read_cr0 : Cmd Cpu ℕ
read_cr0 = gets (λ c. c.cr0)

unfoldable pub read_cr2 : Cmd Cpu ℕ
read_cr2 = gets (λ c. c.cr2)

unfoldable pub read_cr3 : Cmd Cpu ℕ
read_cr3 = gets (λ c. c.cr3)

unfoldable pub read_cr4 : Cmd Cpu ℕ
read_cr4 = gets (λ c. c.cr4)

unfoldable pub write_cr0 : ℕ → Cmd Cpu (Unit {0})
write_cr0 value = modify (λ c. record c { cr0 = value })

unfoldable pub write_cr2 : ℕ → Cmd Cpu (Unit {0})
write_cr2 value = modify (λ c. record c { cr2 = value })

unfoldable pub write_cr3 : ℕ → Cmd Cpu (Unit {0})
write_cr3 value = modify (λ c. record c { cr3 = value })

unfoldable pub write_cr4 : ℕ → Cmd Cpu (Unit {0})
write_cr4 value = modify (λ c. record c { cr4 = value })

-- `xsetbv`, `rdmsr`, `wrmsr` and `rdtsc` pass 64 bits as edx:eax.
abbrev low32 : ℕ → ℕ
low32 value = value % 2 ^ 32

abbrev high32 : ℕ → ℕ
high32 value = value / 2 ^ 32 % 2 ^ 32

abbrev joined : (edx eax : ℕ) → ℕ
joined edx eax = bit_or (edx * 2 ^ 32) eax

unfoldable pub wrxcr : (reg value : ℕ) → Cmd Cpu (Unit {0})
wrxcr reg value =
    modify (λ c. record c { xcr = update c.xcr reg (high32 value * 2 ^ 32 + low32 value) })

-- The source's `| edx` in place of `| eax` is kept.
unfoldable pub rdtsc : Cmd Cpu ℕ
rdtsc = do edx ← gets (λ c. high32 c.tsc); pure (joined edx edx)

unfoldable pub rdmsr : (msr : ℕ) → Cmd Cpu ℕ
rdmsr msr = do
  edx ← gets (λ c. high32 (c.msr msr))
  eax ← gets (λ c. low32 (c.msr msr))
  pure (joined edx eax)

unfoldable pub wrmsr : (msr val : ℕ) → Cmd Cpu ℕ
wrmsr msr val = do
  let eax = low32 val
  let edx = high32 val
  modify (λ c. record c { msr = update c.msr msr (edx * 2 ^ 32 + eax) })
  pure (joined edx eax)

unfoldable pub set_kernel_gs_base : (addr : ℕ) → Cmd Cpu ℕ
unfolding wrmsr
set_kernel_gs_base addr = wrmsr 0xc0000102 addr

unfoldable pub set_gs_base : (addr : ℕ) → Cmd Cpu ℕ
unfolding wrmsr
set_gs_base addr = wrmsr 0xc0000101 addr

unfoldable pub set_fs_base : (addr : ℕ) → Cmd Cpu ℕ
unfolding wrmsr
set_fs_base addr = wrmsr 0xc0000100 addr

unfoldable pub get_kernel_gs_base : Cmd Cpu ℕ
unfolding rdmsr
get_kernel_gs_base = rdmsr 0xc0000102

unfoldable pub get_gs_base : Cmd Cpu ℕ
unfolding rdmsr
get_gs_base = rdmsr 0xc0000101

unfoldable pub get_fs_base : Cmd Cpu ℕ
unfolding rdmsr
get_fs_base = rdmsr 0xc0000100
