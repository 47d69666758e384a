-- ===== src/Cpu/Features.antt =====
-- What turning on the FPU leaves in the control registers.
use cynix.Base.{
  ℕ, ◌+◌, ◌*◌, ◌/◌, ◌%◌, ◌^◌, ◌≡◌, refl, sym, ap, ◌∙◌, subst, ◌⊎◌, inl, inr, bit_or, Bool, true,
  false, Bool-cases, none, some, Option-cases, update, arith,
}
use cynix.Base.Bits.{bit_or-bit}
use cynix.Base.Outcome.{Outcome, returned, failed}
use cynix.Base.Run.{Reason, Run, ok, panics, cpuid_failure}
use cynix.Cpu.{Cpu, read_cr0, write_cr0, read_cr4, write_cr4, wrxcr}
use cynix.Cpu.Fpu.{
  Leaf, Leaves, cpuid, by_xsave, by_fxsave, Fpu, has, cpuid_xsave, cpuid_avx, enable_sse,
  has_avx512, choose_xcr0, set_saving, save_by_xsave, enable_xsave, choose_saving, enable_fpu,
}
use cynix.Cpu.Xcr0.{
  bit, IsSseOn, IsXcr0, Features, sse_cpu, sse_cpu-IsSseOn, choose_xcr0-IsXcr0, choose_xcr0-bits,
}

abbrev pub avx512_of : Leaves → Bool
avx512_of leaves = has_avx512 (cpuid leaves 7 0)

-- What turning on the FPU comes to
pub data Enabled (leaves : Leaves) (f : Fpu) (r : Run Fpu (Unit {0})) : Type 0 where
  with_xsave :
      (l size : Leaf) (t : Fpu)
      → cpuid leaves 1 0 ≡ some l
      → has l.ecx cpuid_xsave ≡ true
      → cpuid leaves 0xd 0 ≡ some size
      → r ≡ ok tt t
      → IsSseOn t.cpu
      → Features t.cpu (has l.ecx cpuid_avx) (avx512_of leaves)
      → (t.fpu_storage_size ≡ size.ecx) × (t.fpu_save ≡ by_xsave)
      → Enabled leaves f r
  with_fxsave :
      (t : Fpu)
      → ((l : Leaf) → cpuid leaves 1 0 ≡ some l → has l.ecx cpuid_xsave ≡ false)
      → r ≡ ok tt t
      → IsSseOn t.cpu
      → ((k : ℕ) → t.cpu.xcr k ≡ f.cpu.xcr k)
      → (t.fpu_storage_size ≡ 512) × (t.fpu_save ≡ by_fxsave)
      → Enabled leaves f r
  no_size :
      (l : Leaf)
      → cpuid leaves 1 0 ≡ some l
      → has l.ecx cpuid_xsave ≡ true
      → cpuid leaves 0xd 0 ≡ none
      → r ≡ panics cpuid_failure
      → Enabled leaves f r

module _ (leaves : Leaves) (f : Fpu) where
  abbrev sse : Cpu
  sse = sse_cpu f.cpu

  abbrev legacy : Fpu
  legacy = record f { cpu = sse; fpu_storage_size = 512; fpu_save = by_fxsave }

  abbrev xcr0 : Leaf → ℕ
  xcr0 l = choose_xcr0 (has l.ecx cpuid_avx) (avx512_of leaves)

  abbrev modern : Leaf → (size : ℕ) → Fpu
  modern l size = record f {
    cpu = record sse {
      cr4 = bit_or sse.cr4 (2 ^ 18);
      xcr = update f.cpu.xcr 0 (xcr0 l / 2 ^ 32 % 2 ^ 32 * 2 ^ 32 + xcr0 l % 2 ^ 32);
    };
    fpu_storage_size = size;
    fpu_save = by_xsave;
  }

  legacy-none : cpuid leaves 1 0 ≡ none → enable_fpu leaves f ≡ ok tt legacy
  unfolding enable_fpu enable_sse sse_cpu choose_saving set_saving read_cr0 write_cr0 read_cr4
      write_cr4
  legacy-none e = rw (enable_fpu, e)

  legacy-some :
      (l : Leaf)
      → cpuid leaves 1 0 ≡ some l
      → has l.ecx cpuid_xsave ≡ false
      → enable_fpu leaves f ≡ ok tt legacy
  unfolding enable_fpu enable_sse sse_cpu choose_saving set_saving read_cr0 write_cr0 read_cr4
      write_cr4
  legacy-some l e no_xsave = rw (enable_fpu, e, no_xsave)

  modern-some :
      (l size : Leaf)
      → cpuid leaves 1 0 ≡ some l
      → has l.ecx cpuid_xsave ≡ true
      → cpuid leaves 0xd 0 ≡ some size
      → enable_fpu leaves f ≡ ok tt (modern l size.ecx)
  unfolding enable_fpu enable_sse sse_cpu choose_saving enable_xsave save_by_xsave set_saving
      read_cr0 write_cr0 read_cr4 write_cr4 wrxcr
  modern-some l size e xsave s = rw (enable_fpu, e, xsave, s)

  modern-fails :
      (l : Leaf)
      → cpuid leaves 1 0 ≡ some l
      → has l.ecx cpuid_xsave ≡ true
      → cpuid leaves 0xd 0 ≡ none
      → enable_fpu leaves f ≡ panics cpuid_failure
  unfolding enable_fpu enable_sse sse_cpu choose_saving enable_xsave save_by_xsave set_saving
      read_cr0 write_cr0 read_cr4 write_cr4 wrxcr
  modern-fails l e xsave s = rw (enable_fpu, e, xsave, s)

  legacy_xcr : (k : ℕ) → legacy.cpu.xcr k ≡ f.cpu.xcr k
  unfolding sse_cpu
  legacy_xcr k = refl

  sse_on : IsSseOn sse
  sse_on = sse_cpu-IsSseOn f.cpu

  modern-IsSseOn : (l : Leaf) (size : ℕ) → IsSseOn (modern l size).cpu
  modern-IsSseOn l size = record {
    monitors = sse_on.monitors;
    no_emulation = sse_on.no_emulation;
    fxsr = omega (arith, bit_or-bit 9 sse.cr4 (2 ^ 18), sse_on.fxsr);
    exceptions = omega (arith, bit_or-bit 10 sse.cr4 (2 ^ 18), sse_on.exceptions);
  }

  module _ (l : Leaf) (size : ℕ)
      (honest : avx512_of leaves ≡ true → has l.ecx cpuid_avx ≡ true) where
    written : (modern l size).cpu.xcr 0 ≡ xcr0 l
    written =
        let (small, _, _, _) = choose_xcr0-bits (has l.ecx cpuid_avx) (avx512_of leaves) in
        omega (arith, small)

    modern-Features : Features (modern l size).cpu (has l.ecx cpuid_avx) (avx512_of leaves)
    modern-Features =
        let (_, one, two, five) = choose_xcr0-bits (has l.ecx cpuid_avx) (avx512_of leaves) in
        record {
          osxsave = omega (arith, bit_or-bit 18 sse.cr4 (2 ^ 18));
          accepted =
              subst IsXcr0 (sym written)
                (choose_xcr0-IsXcr0 (has l.ecx cpuid_avx) (avx512_of leaves) honest);
          sse = ap (bit 1) written ∙ one;
          avx_bit = ap (bit 2) written ∙ two;
          avx512_bit = ap (bit 5) written ∙ five;
        }

  by_leaf :
      (l : Leaf)
      → cpuid leaves 1 0 ≡ some l
      → (avx512_of leaves ≡ true → has l.ecx cpuid_avx ≡ true)
      → (has l.ecx cpuid_xsave ≡ true) ⊎ (has l.ecx cpuid_xsave ≡ false)
      → (cpuid leaves 0xd 0 ≡ none) ⊎ ((size : Leaf) × (cpuid leaves 0xd 0 ≡ some size))
      → Enabled leaves f (enable_fpu leaves f)
  by_leaf l e honest (inl xsave) (inl none_d) =
      no_size l e xsave none_d (modern-fails l e xsave none_d)
  by_leaf l e honest (inl xsave) (inr (size, some_d)) =
      with_xsave l size (modern l size.ecx) e xsave some_d (modern-some l size e xsave some_d)
        (modern-IsSseOn l size.ecx) (modern-Features l size.ecx honest) (refl, refl)
  by_leaf l e honest (inr no_xsave) _ =
      with_fxsave legacy
        (λ k e'. let same : l ≡ k = cc in subst (λ m. has m.ecx cpuid_xsave ≡ false) same no_xsave)
        (legacy-some l e no_xsave) sse_on legacy_xcr (refl, refl)

  -- On a CPU that reports AVX where it reports AVX-512, `cpu_init` turns SSE on in CR0 and CR4;
  -- with XSAVE it sets OSXSAVE and loads XCR0 with a value that the CPU accepts, with the AVX and
  -- AVX-512 parts exactly if they are reported, and takes the size of the state from leaf 0xd, or
  -- panics if that leaf is not there; without XSAVE it leaves XCR0 alone and takes 512 bytes for
  -- FXSAVE.
  pub enable_fpu-Enabled :
      ((l : Leaf)
        → cpuid leaves 1 0 ≡ some l
        → avx512_of leaves ≡ true
        → has l.ecx cpuid_avx ≡ true)
      → Enabled leaves f (enable_fpu leaves f)
  enable_fpu-Enabled honest = elim (Option-cases (cpuid leaves 1 0)) [
    | inl e ↦
        with_fxsave legacy (λ l e'. absurd (let clash : none ≡ some l = sym e ∙ e' in cc))
          (legacy-none e) sse_on legacy_xcr (refl, refl)
    | inr (l, e) ↦
        by_leaf l e (honest l e) (Bool-cases (has l.ecx cpuid_xsave))
          (Option-cases (cpuid leaves 0xd 0))
  ]

abbrev pub NoLeaf : Reason → Type 0
NoLeaf reason = reason ≡ cpuid_failure

-- What turning on the FPU leaves alone
pub record SameBases (c c' : Cpu) : Type 0 where
  pub same_msr : (k : ℕ) → c'.msr k ≡ c.msr k
  pub same_cr3 : c'.cr3 ≡ c.cr3

module _ (leaves : Leaves) (f : Fpu) where
  legacy-SameBases : SameBases f.cpu (legacy leaves f).cpu
  unfolding sse_cpu
  legacy-SameBases = record { same_msr = λ k. refl; same_cr3 = refl }

  modern-SameBases : (l : Leaf) (size : ℕ) → SameBases f.cpu (modern leaves f l size).cpu
  unfolding sse_cpu
  modern-SameBases l size = record { same_msr = λ k. refl; same_cr3 = refl }

  abbrev Keeps : Type 0
  Keeps = Outcome NoLeaf (λ _ t. SameBases f.cpu t.cpu) (enable_fpu leaves f)

  keeps_modern :
      (l : Leaf)
      → cpuid leaves 1 0 ≡ some l
      → has l.ecx cpuid_xsave ≡ true
      → (cpuid leaves 0xd 0 ≡ none) ⊎ ((size : Leaf) × (cpuid leaves 0xd 0 ≡ some size))
      → Keeps
  keeps_modern l e xsave (inl none_d) =
      failed cpuid_failure refl (modern-fails leaves f l e xsave none_d)
  keeps_modern l e xsave (inr (size, some_d)) =
      returned tt (modern leaves f l size.ecx) (modern-some leaves f l size e xsave some_d)
        (modern-SameBases l size.ecx)

  pub enable_fpu-Keeps : Keeps
  enable_fpu-Keeps = elim (Option-cases (cpuid leaves 1 0)) [
    | inl e ↦ returned tt (legacy leaves f) (legacy-none leaves f e) legacy-SameBases
    | inr (l, e) ↦ elim (Bool-cases (has l.ecx cpuid_xsave)) [
      | inl xsave ↦ keeps_modern l e xsave (Option-cases (cpuid leaves 0xd 0))
      | inr plain ↦ returned tt (legacy leaves f) (legacy-some leaves f l e plain) legacy-SameBases
    ]
  ]
