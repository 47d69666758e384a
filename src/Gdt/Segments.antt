-- ===== src/Gdt/Segments.antt =====
-- What the processor reads out of the segment descriptors.
use cynix.Base.{
  ℕ, ◌+◌, ◌*◌, ◌/◌, ◌%◌, ◌^◌, ◌<◌, ◌≡◌, refl, sym, ◌∙◌, ◌≢◌, Bool, true, false, ◌&&◌, ◌==◌, arith,
  update, update_ne,
}
use cynix.Base.Run.{ok}
use cynix.Spinlock.{spinlock_acquire, spinlock_release}
use cynix.Gdt.{
  GdtDescriptor, Gdt, gdt_kernel_code_sel, gdt_kernel_data_sel, gdt_user_code_sel,
  gdt_user_data_sel, gdt_tss_sel, tss_low, tss_high, segment, set_descriptor, gdt_init,
  load_task_register, gdt_load_tss,
}

-- A selector is an index, a table bit and a privilege level.
abbrev pub sel_index : ℕ → ℕ
sel_index sel = sel / 8

abbrev pub sel_rpl : ℕ → ℕ
sel_rpl sel = sel % 4

-- The fields of the access byte: bit 7 present, bits 5 and 6 the privilege level, bit 4 set for
-- code and data, bit 3 set for code, the low four bits the type of a system descriptor.
abbrev pub is_present : GdtDescriptor → Bool
is_present d = d.access / 128 % 2 == 1

abbrev pub dpl : GdtDescriptor → ℕ
dpl d = d.access / 32 % 4

abbrev pub is_code : GdtDescriptor → Bool
is_code d = (d.access / 16 % 2 == 1) && (d.access / 8 % 2 == 1)

abbrev pub is_data : GdtDescriptor → Bool
is_data d = (d.access / 16 % 2 == 1) && (d.access / 8 % 2 == 0)

abbrev pub system_type : GdtDescriptor → ℕ
system_type d = d.access % 16

-- Bit 5 of the granularity byte marks a 64-bit code segment.
abbrev pub is_long : GdtDescriptor → Bool
is_long d = d.granularity / 32 % 2 == 1

abbrev pub base_of : (low high : GdtDescriptor) → ℕ
base_of low high =
    low.base_low16
    + low.base_mid8 * 2 ^ 16
    + low.base_high8 * 2 ^ 24
    + high.limit * 2 ^ 32
    + high.base_low16 * 2 ^ 48

-- A selector leads to a segment of its own privilege level with the kind that it is used for.
pub record Selects (s : Gdt) (sel : ℕ) (kind : GdtDescriptor → Bool) : Type 0 where
  pub present : is_present (s.gdt (sel_index sel)) ≡ true
  pub level : dpl (s.gdt (sel_index sel)) ≡ sel_rpl sel
  pub of_kind : kind (s.gdt (sel_index sel)) ≡ true

pub record IsFlat (s : Gdt) : Type 0 where
  pub kernel_code : Selects s gdt_kernel_code_sel (λ d. is_code d && is_long d)
  pub kernel_data : Selects s gdt_kernel_data_sel is_data
  pub user_code : Selects s gdt_user_code_sel (λ d. is_code d && is_long d)
  pub user_data : Selects s gdt_user_data_sel is_data

-- After `gdt_init` each of the four selectors that the kernel uses leads to a present segment of
-- its own privilege level: the code selectors to 64-bit code, the data selectors to data.
pub gdt_init-IsFlat : (s : Gdt) → (s' : Gdt) × (gdt_init s ≡ ok tt s') × IsFlat s'
unfolding gdt_init segment set_descriptor
gdt_init-IsFlat s = (
  _,
  refl,
  record {
    kernel_code = record { present = refl; level = refl; of_kind = refl };
    kernel_data = record { present = refl; level = refl; of_kind = refl };
    user_code = record { present = refl; level = refl; of_kind = refl };
    user_data = record { present = refl; level = refl; of_kind = refl };
  },
)

-- The TSS that the task register leads to.
pub record HasTss (s : Gdt) (tss : ℕ) : Type 0 where
  pub selected : s.task_register ≡ gdt_tss_sel
  pub present : is_present (s.gdt (sel_index gdt_tss_sel)) ≡ true
  -- 11 is a 64-bit TSS in use.
  pub busy : system_type (s.gdt (sel_index gdt_tss_sel)) ≡ 11
  pub size : (s.gdt (sel_index gdt_tss_sel)).limit + 1 ≡ 104
  pub base : base_of (s.gdt (sel_index gdt_tss_sel)) (s.gdt (sel_index gdt_tss_sel + 1)) ≡ tss

base_of_lem : (tss : ℕ) → tss < 2 ^ 64 → base_of (tss_low tss) (tss_high tss) ≡ tss
unfolding tss_low tss_high
base_of_lem tss lt = omega arith

-- With interrupts off and the lock free, `gdt_load_tss` of an address below 2 ^ 64 returns, the
-- task register then selects a present TSS of 104 bytes, marked as busy, whose base, put together
-- from both descriptors, is that address, the lock is free, and no other descriptor changes.
pub gdt_load_tss-HasTss :
    (s : Gdt) (tss : ℕ)
    → tss < 2 ^ 64
    → s.interrupts ≡ false
    → s.gdt_lock ≡ false
    → (s' : Gdt) × (gdt_load_tss tss s ≡ ok tt s')
      × HasTss s' tss
      × (s'.gdt_lock ≡ false)
      × ((i : ℕ) → i ≢ 5 → i ≢ 6 → s'.gdt i ≡ s.gdt i)
unfolding gdt_load_tss load_task_register tss_low set_descriptor spinlock_acquire spinlock_release
gdt_load_tss-HasTss s tss lt off free = (
  record s {
    gdt =
        update (update (update s.gdt 5 (tss_low tss)) 6 (tss_high tss)) 5
          (record (tss_low tss) { access = 0b10001011 });
    task_register = gdt_tss_sel;
    gdt_lock = false;
  },
  rw (off, free),
  record { selected = refl; present = refl; busy = refl; size = refl; base = base_of_lem tss lt },
  refl,
  λ i not_low not_high.
      update_ne (update (update s.gdt 5 (tss_low tss)) 6 (tss_high tss))
        (record (tss_low tss) { access = 0b10001011 }) (λ e. not_low (sym e))
      ∙ update_ne (update s.gdt 5 (tss_low tss)) (tss_high tss) (λ e. not_high (sym e))
      ∙ update_ne s.gdt (tss_low tss) (λ e. not_low (sym e)),
)
