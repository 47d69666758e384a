-- ===== src/Acpi/Tests.antt =====
-- Runs on a root table with three tables, and the theorems at these runs.
use cynix.Base.{
  true, ℕ, zero, suc, ◌+◌, ◌*◌, ◌/◌, ◌%◌, ◌^◌, ◌≤◌, ◌<◌, ◌≡◌, refl, false, List, [], ◌∷◌, update,
  arith,
}
use cynix.Base.Run.{ok}
use cynix.Acpi.{
  Acpi, little, use_xsdt, table_at, entry_count, acpi_find_sdt, start_hpet, nanoseconds_since_boot,
}
use cynix.Vmm.Demo.{demo, demo_label, demo-IsPagemap}
use cynix.Acpi.Find.{Found, IsMappable, tables, named, item, acpi_find_sdt-Found}
use cynix.Acpi.Clock.{later, start_hpet-nanoseconds}

-- Bytes from an address on
abbrev put : (address : ℕ) → List ℕ → (ℕ → ℕ) → ℕ → ℕ
put address [] f = f
put address (b ∷ bs) f = put (address + 1) bs (update f address b)

abbrev base : ℕ
base = 0xffff_8000_0000_0000

-- The root table at 0x2000 lists "APIC", "SSDT" and another "SSDT".
abbrev test_firmware : ℕ → ℕ
test_firmware = put (base + 0x2004) (48 ∷ []) (
    put (base + 0x2024) (0 ∷ 0x30 ∷ 0 ∷ 0 ∷ 0 ∷ 0x40 ∷ 0 ∷ 0 ∷ 0 ∷ 0x50 ∷ 0 ∷ 0 ∷ []) (
      put (base + 0x3000) (0x41 ∷ 0x50 ∷ 0x49 ∷ 0x43 ∷ 44 ∷ []) (
        put (base + 0x4000) (0x53 ∷ 0x53 ∷ 0x44 ∷ 0x54 ∷ 36 ∷ [])
          (put (base + 0x5000) (0x53 ∷ 0x53 ∷ 0x44 ∷ 0x54 ∷ 40 ∷ []) (λ _. 0)))))

abbrev test_acpi : Acpi
test_acpi = record {
  vmm = demo;
  hhdm = base;
  firmware = test_firmware;
  rsdp = base + 0x1000;
  rsdt = base + 0x2000;
  x2apic_mode = false;
  room = λ _. true;
  madt = record {
    madt_lapics = [];
    madt_x2apics = [];
    madt_io_apics = [];
    madt_isos = [];
    madt_nmis = [];
  };
  hpet_at = 0;
  hpet = record {
    general_capabilities = 69841279 * 2 ^ 32 + 0x8086a201;
    general_configuration = 0;
    main_counter_value = 5;
  };
  hpet_frequency = 0;
}

abbrev ssdt : ℕ
ssdt = 0x54445353

three_tables :
    tables test_acpi 0 (entry_count test_acpi)
    ≡ (base + 0x3000) ∷ (base + 0x4000) ∷ (base + 0x5000) ∷ []
unfolding entry_count table_at use_xsdt little
three_tables = refl

second_ssdt : item (named test_firmware ssdt (tables test_acpi 0 3)) 1 ≡ base + 0x5000
unfolding table_at use_xsdt little
second_ssdt = refl

test_acpi-IsMappable :
    (k : ℕ) → k < entry_count test_acpi → IsMappable test_acpi (table_at test_acpi k)
unfolding entry_count table_at use_xsdt little
test_acpi-IsMappable zero lt = record {
  small = omega arith;
  header = omega arith;
  whole = omega arith;
}
test_acpi-IsMappable (suc zero) lt = record {
  small = omega arith;
  header = omega arith;
  whole = omega arith;
}
test_acpi-IsMappable (suc (suc zero)) lt = record {
  small = omega arith;
  header = omega arith;
  whole = omega arith;
}
test_acpi-IsMappable (suc (suc (suc k))) lt = absurd (omega arith)

acpi_find_sdt-Found_example :
    Found test_acpi 1
      (item (named test_firmware ssdt (tables test_acpi 0 (entry_count test_acpi))) 1)
      (acpi_find_sdt ssdt 1 test_acpi)
acpi_find_sdt-Found_example =
    acpi_find_sdt-Found ssdt 1 test_acpi 1 demo_label demo-IsPagemap test_acpi-IsMappable

start_hpet-nanoseconds_example :
    (b : Acpi) × (x : ℕ) × (y : ℕ) × (start_hpet test_acpi ≡ ok tt b)
    × (b.hpet.main_counter_value ≡ 0)
    × (b.hpet.general_configuration % 2 ≡ 1)
    × (nanoseconds_since_boot (later b 1000) ≡ ok x (later b 1000))
    × (nanoseconds_since_boot (later b 1001) ≡ ok y (later b 1001))
    × (x < y)
    × (1000 * (69841279 / 1000000) ≤ x)
    × (x ≤ 1000 * (69841279 / 1000000 + 1))
start_hpet-nanoseconds_example =
    start_hpet-nanoseconds test_acpi 69841279 refl (omega arith) (omega arith) 1000 1001
      (omega arith) (omega arith)
