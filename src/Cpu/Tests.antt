-- ===== src/Cpu/Tests.antt =====
-- A CPU whose time-stamp counter is at 0x5_0000_0007.
use cynix.Cpu.Fpu.{Leaves, cpuid, by_fxsave, Fpu, has_avx512, enable_fpu}
use cynix.Cpu.Features.{avx512_of, Enabled, enable_fpu-Enabled}
use cynix.Base.{refl, false, none, ◌==◌, if◌then◌else◌, ◌^◌, ◌+◌, ℕ, ◌≡◌, arith}
use cynix.Base.Run.{ok}
use cynix.Cpu.{Cpu, rdtsc}
use cynix.Cpu.Registers.{rdtsc-blind}

abbrev demo : Cpu
demo = record {
  cr0 = 0;
  cr2 = 0;
  cr3 = 0;
  cr4 = 0;
  tsc = 0x5_0000_0007;
  msr = λ r. 0;
  xcr = λ r. 0;
}

abbrev base : ℕ
base = 0xffff_8000_0000_1000

rdtsc-blind_example : rdtsc demo ≡ ok 0x5_0000_0005 demo
rdtsc-blind_example = rdtsc-blind demo (omega arith)

-- A CPU with XSAVE and AVX
abbrev demo_leaves : Leaves
demo_leaves leaf subleaf =
    if leaf == 0
    then record { eax = 0xd; ebx = 0; ecx = 0; edx = 0 }
    else if leaf == 1
    then record { eax = 0; ebx = 0; ecx = 2 ^ 26 + 2 ^ 28; edx = 0 }
    else record { eax = 0; ebx = 0; ecx = 832; edx = 0 }

abbrev demo_fpu : Fpu
demo_fpu = record { cpu = demo; fpu_storage_size = 0; fpu_save = by_fxsave }

-- The instruction on a leaf that is not there
cpuid_run : cpuid demo_leaves 0x15 0 ≡ none
unfolding cpuid
cpuid_run = refl

no_avx512 : avx512_of demo_leaves ≡ false
unfolding cpuid has_avx512
no_avx512 = refl

enable_fpu-Enabled_example : Enabled demo_leaves demo_fpu (enable_fpu demo_leaves demo_fpu)
enable_fpu-Enabled_example =
    enable_fpu-Enabled demo_leaves demo_fpu (λ l e on. absurd (let off = no_avx512 in cc))
