-- ===== src/Gdt/Tests.antt =====
-- The descriptor tables of a CPU whose TSS is at 0xffff_8000_0012_3400.
use cynix.Base.{ℕ, ◌≡◌, refl, ◌≢◌, false, arith}
use cynix.Base.Run.{ok}
use cynix.Gdt.{GdtDescriptor, Gdt, gdt_init, gdt_load_tss}
use cynix.Gdt.Segments.{IsFlat, HasTss, gdt_init-IsFlat, gdt_load_tss-HasTss}

abbrev empty_descriptor : GdtDescriptor
empty_descriptor = record {
  limit = 0;
  base_low16 = 0;
  base_mid8 = 0;
  access = 0;
  granularity = 0;
  base_high8 = 0;
}

abbrev demo : Gdt
demo = record {
  interrupts = false;
  gdt_lock = false;
  gdt = λ i. empty_descriptor;
  task_register = 0;
}

gdt_init-IsFlat_example : (s' : Gdt) × (gdt_init demo ≡ ok tt s') × IsFlat s'
gdt_init-IsFlat_example = gdt_init-IsFlat demo

gdt_load_tss-HasTss_example :
    (s' : Gdt) × (gdt_load_tss 0xffff_8000_0012_3400 demo ≡ ok tt s')
    × HasTss s' 0xffff_8000_0012_3400
    × (s'.gdt_lock ≡ false)
    × ((i : ℕ) → i ≢ 5 → i ≢ 6 → s'.gdt i ≡ empty_descriptor)
gdt_load_tss-HasTss_example = gdt_load_tss-HasTss demo 0xffff_8000_0012_3400 (omega arith) refl refl
