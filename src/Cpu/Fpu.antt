-- ===== src/Cpu/Fpu.antt =====
-- The part of `cpu_init` of kernel/src/sys/cpu.c that turns on the FPU, over `cpuid` of cpu.k.h.
use cynix.Base.{
  ℕ, ◌-◌, ◌*◌, ◌^◌, bit_and, bit_or, Bool, false, not, Option, none, some, ltb, ◌==◌, if◌then◌else◌,
}
use cynix.Base.Run.{Cmd, cpuid_failure, modify, fail, zoom, ◌>>=◌, ◌>>◌}
use cynix.Cpu.{Cpu, read_cr0, write_cr0, read_cr4, write_cr4, wrxcr}

-- What the instruction answers for a leaf and a subleaf
pub record Leaf : Type 0 where
  pub eax : ℕ
  pub ebx : ℕ
  pub ecx : ℕ
  pub edx : ℕ

abbrev pub Leaves : Type 0
Leaves = (leaf subleaf : ℕ) → Leaf

-- The highest leaf does not depend on the subleaf. `none` is the result `false`.
unfoldable pub cpuid : Leaves → (leaf subleaf : ℕ) → Option Leaf
cpuid leaves leaf subleaf =
    let cpuid_max = (leaves (bit_and leaf 0x80000000) 0).eax in
    if ltb cpuid_max leaf then none else some (leaves leaf subleaf)

-- The two pairs of functions that save and restore the state of the FPU
pub data Saving : Type 0 where
  by_xsave by_fxsave : Saving

-- The registers, and the statics of cpu.c
pub record Fpu : Type 0 where
  pub cpu : Cpu
  pub fpu_storage_size : ℕ
  pub fpu_save : Saving

abbrev pub on_cpu : {A : Type 0} → Cmd Cpu A → Cmd Fpu A
on_cpu = zoom (λ f. f.cpu) (λ c f. record f { cpu = c })

abbrev pub has : (word mask : ℕ) → Bool
has word mask = not (bit_and word mask == 0)

abbrev pub cpuid_xsave : ℕ
cpuid_xsave = 2 ^ 26

abbrev pub cpuid_avx : ℕ
cpuid_avx = 2 ^ 28

abbrev pub cpuid_avx512 : ℕ
cpuid_avx512 = 2 ^ 16

unfoldable pub enable_sse : Cmd Cpu (Unit {0})
unfolding read_cr0 write_cr0 read_cr4 write_cr4
enable_sse = do
  cr0 ← read_cr0
  write_cr0 (bit_or (bit_and cr0 (2 ^ 64 - 1 - 2 ^ 2)) (2 ^ 1))
  cr4 ← read_cr4
  write_cr4 (bit_or cr4 (3 * 2 ^ 9))

-- `cpuid(7, 0, ...) && (ebx & CPUID_AVX512)`
unfoldable pub has_avx512 : Option Leaf → Bool
has_avx512 none = false
has_avx512 (some l) = has l.ebx cpuid_avx512

unfoldable pub choose_xcr0 : (avx avx512 : Bool) → ℕ
choose_xcr0 avx avx512 =
    let with_sse = bit_or (bit_or 0 (2 ^ 0)) (2 ^ 1) in
    let with_avx = if avx then bit_or with_sse (2 ^ 2) else with_sse in
    if avx512 then bit_or (bit_or (bit_or with_avx (2 ^ 5)) (2 ^ 6)) (2 ^ 7) else with_avx

unfoldable pub set_saving : (size : ℕ) → Saving → Cmd Fpu (Unit {0})
set_saving size saving = modify (λ f. record f { fpu_storage_size = size; fpu_save = saving })

unfoldable pub save_by_xsave : Option Leaf → Cmd Fpu (Unit {0})
unfolding set_saving
save_by_xsave none = fail cpuid_failure
save_by_xsave (some l) = set_saving l.ecx by_xsave

-- The branch for a CPU with XSAVE; `ecx` is of leaf 1.
unfoldable pub enable_xsave : Leaves → (ecx : ℕ) → Cmd Fpu (Unit {0})
unfolding read_cr4 write_cr4 wrxcr cpuid has_avx512 choose_xcr0 save_by_xsave
enable_xsave leaves ecx = do
  cr4 ← on_cpu read_cr4
  on_cpu (write_cr4 (bit_or cr4 (2 ^ 18)))
  on_cpu (wrxcr 0 (choose_xcr0 (has ecx cpuid_avx) (has_avx512 (cpuid leaves 7 0))))
  save_by_xsave (cpuid leaves 0xd 0)

unfoldable pub choose_saving : Leaves → Option Leaf → Cmd Fpu (Unit {0})
unfolding enable_xsave set_saving
choose_saving leaves none = set_saving 512 by_fxsave
choose_saving leaves (some l) =
    if has l.ecx cpuid_xsave then enable_xsave leaves l.ecx else set_saving 512 by_fxsave

unfoldable pub enable_fpu : Leaves → Cmd Fpu (Unit {0})
unfolding enable_sse choose_saving cpuid
enable_fpu leaves = on_cpu enable_sse >> choose_saving leaves (cpuid leaves 1 0)
