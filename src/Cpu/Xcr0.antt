-- ===== src/Cpu/Xcr0.antt =====
-- SSE and the components in XCR0.
use cynix.Base.{
  ℕ, ◌-◌, ◌*◌, ◌/◌, ◌%◌, ◌^◌, ◌≤◌, ◌<◌, ◌≡◌, refl, bit_and, bit_or, Bool, true, false,
  if◌then◌else◌, arith,
}
use cynix.Base.Bits.{bit_or-bit, bit_and-bit}
use cynix.Cpu.{Cpu}
use cynix.Cpu.Fpu.{choose_xcr0}

abbrev pub bit : (k x : ℕ) → ℕ
bit k x = x / 2 ^ k % 2

-- SSE is on: CR0 monitors the coprocessor and does not emulate it, CR4 has OSFXSR and OSXMMEXCPT.
pub record IsSseOn (c : Cpu) : Type 0 where
  pub monitors : bit 1 c.cr0 ≡ 1
  pub no_emulation : bit 2 c.cr0 ≡ 0
  pub fxsr : bit 9 c.cr4 ≡ 1
  pub exceptions : bit 10 c.cr4 ≡ 1

-- What `xsetbv` accepts for the components that the kernel knows: x87 always, AVX with SSE only, the
-- three parts of AVX-512 together and with AVX only.
pub record IsXcr0 (x : ℕ) : Type 0 where
  pub x87 : bit 0 x ≡ 1
  pub avx_with_sse : bit 2 x ≤ bit 1 x
  pub parts : (bit 5 x ≡ bit 6 x) × (bit 6 x ≡ bit 7 x)
  pub avx512_with_avx : bit 5 x ≤ bit 2 x

pub record Features (c : Cpu) (avx avx512 : Bool) : Type 0 where
  pub osxsave : bit 18 c.cr4 ≡ 1
  pub accepted : IsXcr0 (c.xcr 0)
  pub sse : bit 1 (c.xcr 0) ≡ 1
  pub avx_bit : bit 2 (c.xcr 0) ≡ (if avx then 1 else 0)
  pub avx512_bit : bit 5 (c.xcr 0) ≡ (if avx512 then 1 else 0)

unfoldable pub sse_cpu : Cpu → Cpu
sse_cpu c = record c {
  cr0 = bit_or (bit_and c.cr0 (2 ^ 64 - 1 - 2 ^ 2)) (2 ^ 1);
  cr4 = bit_or c.cr4 (3 * 2 ^ 9);
}

pub sse_cpu-IsSseOn : (c : Cpu) → IsSseOn (sse_cpu c)
unfolding sse_cpu
sse_cpu-IsSseOn c =
    let masked = bit_and c.cr0 (2 ^ 64 - 1 - 2 ^ 2) in
    record {
      monitors = omega (arith, bit_or-bit 1 masked (2 ^ 1));
      no_emulation =
          omega (arith, bit_or-bit 2 masked (2 ^ 1), bit_and-bit 2 c.cr0 (2 ^ 64 - 1 - 2 ^ 2));
      fxsr = omega (arith, bit_or-bit 9 c.cr4 (3 * 2 ^ 9));
      exceptions = omega (arith, bit_or-bit 10 c.cr4 (3 * 2 ^ 9));
    }

-- XCR0 for each of the four cases
pub choose_xcr0-IsXcr0 :
    (avx avx512 : Bool) → (avx512 ≡ true → avx ≡ true) → IsXcr0 (choose_xcr0 avx avx512)
unfolding choose_xcr0
choose_xcr0-IsXcr0 true true h = record {
  x87 = refl;
  avx_with_sse = omega arith;
  parts = (refl, refl);
  avx512_with_avx = omega arith;
}
choose_xcr0-IsXcr0 true false h = record {
  x87 = refl;
  avx_with_sse = omega arith;
  parts = (refl, refl);
  avx512_with_avx = omega arith;
}
choose_xcr0-IsXcr0 false true h = absurd (let e = h refl in cc)
choose_xcr0-IsXcr0 false false h = record {
  x87 = refl;
  avx_with_sse = omega arith;
  parts = (refl, refl);
  avx512_with_avx = omega arith;
}

pub choose_xcr0-bits :
    (avx avx512 : Bool)
    → (choose_xcr0 avx avx512 < 2 ^ 32)
      × (bit 1 (choose_xcr0 avx avx512) ≡ 1)
      × (bit 2 (choose_xcr0 avx avx512) ≡ (if avx then 1 else 0))
      × (bit 5 (choose_xcr0 avx avx512) ≡ (if avx512 then 1 else 0))
unfolding choose_xcr0
choose_xcr0-bits true true = (omega arith, refl, refl, refl)
choose_xcr0-bits true false = (omega arith, refl, refl, refl)
choose_xcr0-bits false true = (omega arith, refl, refl, refl)
choose_xcr0-bits false false = (omega arith, refl, refl, refl)
