-- ===== src/Acpi.antt =====
-- kernel/src/acpi/acpi.c, sys/hpet.c and `madt_init` of acpi/madt.c: the firmware's tables.
pub mod Find
pub mod Clock
mod Tests
use cynix.Base.{
  ℕ, zero, suc, ◌+◌, ◌-◌, ◌*◌, ◌/◌, ◌%◌, ◌^◌, bit_and, bit_or, Bool, true, false, not, ◌&&◌, Option,
  none, some, ltb, leb, ◌==◌, if◌then◌else◌, add64, sub64, mul64,
}
use cynix.Base.Run.{
  Run, Cmd, ok, panics, spins, trap, no_rsdp, hw_reduced, no_madt, no_hpet, gets, modify, pure,
  fail, zoom, ◌>>=◌, ◌>>◌,
}
use cynix.Madt.{Madt, madt_size, scan_entries}
use cynix.Vmm.{Vmm, pte_present, pte_writable, pte_noexec, vmm_map_span}

-- The registers of the HPET that the kernel accesses
pub record Hpet : Type 0 where
  pub general_capabilities : ℕ
  pub general_configuration : ℕ
  pub main_counter_value : ℕ

-- The statics of acpi.c, madt.c and hpet.c, and what they work on. `firmware` is the byte at each
-- address of the direct map of the firmware's memory, which no page table and no data of the kernel
-- lies in. Nothing writes `hhdm` after `mm_init`.
pub record Acpi : Type 0 where
  pub vmm : Vmm
  pub hhdm : ℕ
  pub firmware : ℕ → ℕ
  pub rsdp : ℕ
  pub rsdt : ℕ
  pub x2apic_mode : Bool
  -- whether a vector of so many items has room for one more, or gets it
  pub room : ℕ → Bool
  pub madt : Madt
  pub hpet_at : ℕ
  pub hpet : Hpet
  pub hpet_frequency : ℕ

-- A number of `n` bytes at an address, the lowest byte first
unfoldable pub little : (firmware : ℕ → ℕ) (address n : ℕ) → ℕ
little firmware address zero = 0
little firmware address (suc n) = firmware address + 2 ^ 8 * little firmware (address + 1) n

abbrev pub load : (address n : ℕ) → Cmd Acpi ℕ
load address n = gets (λ a. little a.firmware address n)

abbrev pub sdt_size : ℕ
sdt_size = 36

abbrev pub rsdp_size : ℕ
rsdp_size = 40

-- `sdt->length`
abbrev pub sdt_length : (sdt : ℕ) → Cmd Acpi ℕ
sdt_length sdt = load (sdt + 4) 4

abbrev pub table_flags : ℕ
table_flags = bit_or (bit_or pte_present pte_noexec) pte_writable

abbrev pub on_vmm : {A : Type 0} → Cmd Vmm A → Cmd Acpi A
on_vmm = zoom (λ a. a.vmm) (λ v a. record a { vmm = v })

-- `vmm_map_span(&kernel_pagemap, p, (uintptr_t)p - hhdm, len, ...)`
unfoldable pub map_table : (p len : ℕ) → Cmd Acpi (Unit {0})
unfolding vmm_map_span
map_table p len a = on_vmm (vmm_map_span p (sub64 p a.hhdm) len table_flags) a

-- `rsdp->revision >= 2 && rsdp->xsdt_addr != 0`
unfoldable pub use_xsdt : Acpi → Bool
unfolding little
use_xsdt a = leb 2 (a.firmware (a.rsdp + 15)) && not (little a.firmware (a.rsdp + 24) 8 == 0)

abbrev pub entry_size : Acpi → ℕ
entry_size a = if use_xsdt a then 8 else 4

-- Entry `i` of the root table
unfoldable pub table_at : Acpi → (i : ℕ) → ℕ
unfolding little use_xsdt
table_at a i =
    add64 (little a.firmware (a.rsdt + sdt_size + entry_size a * i) (entry_size a)) a.hhdm

-- The loop of `acpi_find_sdt` from entry `i`, with the rounds left. `memcmp` of four bytes compares
-- them as a number.
unfoldable pub find_from : (signature index i rounds : ℕ) → Cmd Acpi ℕ
unfolding little map_table table_at
find_from signature index i zero = pure 0
find_from signature index i (suc n) =
    let next = find_from signature index (i + 1) n in
    let later = find_from signature (index - 1) (i + 1) n in
    do
      sdt ← gets (λ a. table_at a i)
      map_table sdt sdt_size
      named ← load sdt 4
      if not (named == signature)
          then next
          else if ltb 0 index
          then later
          else (do length ← sdt_length sdt; map_table sdt length; pure sdt)

unfoldable pub entry_count : Acpi → ℕ
unfolding little use_xsdt
entry_count a = sub64 (little a.firmware (a.rsdt + 4) 4) sdt_size / entry_size a

unfoldable pub acpi_find_sdt : (signature index : ℕ) → Cmd Acpi ℕ
unfolding find_from entry_count
acpi_find_sdt signature index = do rounds ← gets entry_count; find_from signature index 0 rounds

-- "APIC", "HPET" and "FACP"
abbrev pub signature_apic : ℕ
signature_apic = 0x43495041

abbrev pub signature_hpet : ℕ
signature_hpet = 0x54455048

abbrev pub signature_facp : ℕ
signature_facp = 0x50434146

-- The loop of `madt_init` over the entries of the table at `madt`: each round but one at an entry of
-- length 0 is at least a byte further, and at that entry it stays.
unfoldable pub read_madt : (madt length : ℕ) → Cmd Acpi (Unit {0})
unfolding scan_entries
read_madt madt length a =
    zoom (λ a. a.madt) (λ m a. record a { madt = m })
      (scan_entries a.room a.x2apic_mode (λ i. a.firmware (madt + madt_size + i)) length
        (length + 1) 0)
      a

unfoldable pub madt_init : Cmd Acpi (Unit {0})
unfolding acpi_find_sdt read_madt
madt_init = do
  madt ← acpi_find_sdt signature_apic 0
  if madt == 0 then fail no_madt else (do length ← sdt_length madt; read_madt madt length)

unfoldable pub hpet_read_counter : Cmd Acpi ℕ
hpet_read_counter = gets (λ a. a.hpet.main_counter_value)

-- `sizeof(struct hpet)`
abbrev pub hpet_size : ℕ
hpet_size = 256

unfoldable pub start_hpet : Cmd Acpi (Unit {0})
start_hpet = do
  capabilities ← gets (λ a. a.hpet.general_capabilities)
  let counter_clk_period = capabilities / 2 ^ 32
  if counter_clk_period == 0 then (λ _. trap) else (do
    modify (λ a. record a { hpet_frequency = 1000000000000000 / counter_clk_period })
    modify (λ a. record a { hpet = record a.hpet { main_counter_value = 0 } })
    tmp ← gets (λ a. a.hpet.general_configuration)
    modify (λ a. record a { hpet = record a.hpet { general_configuration = bit_or tmp 1 } }))

unfoldable pub hpet_init : Cmd Acpi (Unit {0})
unfolding acpi_find_sdt start_hpet map_table little
hpet_init = do
  hpet_table ← acpi_find_sdt signature_hpet 0
  if hpet_table == 0 then fail no_hpet else (do
    address ← load (hpet_table + 44) 8
    modify (λ a. record a { hpet_at = add64 address a.hhdm })
    at ← gets (λ a. a.hpet_at)
    map_table at hpet_size
    start_hpet)

-- `uacpi_kernel_get_nanoseconds_since_boot`
unfoldable pub nanoseconds_since_boot : Cmd Acpi ℕ
unfolding hpet_read_counter
nanoseconds_since_boot = do
  frequency ← gets (λ a. a.hpet_frequency)
  counter ← hpet_read_counter
  if frequency == 0 then (λ _. trap) else pure (mul64 counter (1000000000 / frequency))

-- The checks of the FADT at `fadt`
unfoldable pub check_fadt : (fadt : ℕ) → Cmd Acpi (Unit {0})
unfolding little
check_fadt fadt = do
  length ← sdt_length fadt
  fadt_flags ← load (fadt + 28 * 4) 4
  if not (fadt == 0) && leb 116 length && not (bit_and fadt_flags (2 ^ 20) == 0)
      then fail hw_reduced
      else pure tt

-- The root table is mapped twice, the second time by the length that its header has.
unfoldable pub map_root : Cmd Acpi (Unit {0})
unfolding map_table use_xsdt little
map_root = do
  modify (λ a. record a {
    rsdt =
        if use_xsdt a
        then add64 (little a.firmware (a.rsdp + 24) 8) a.hhdm
        else add64 (little a.firmware (a.rsdp + 16) 4) a.hhdm;
  })
  rsdt ← gets (λ a. a.rsdt)
  map_table rsdt sdt_size
  length ← sdt_length rsdt
  map_table rsdt length

-- `address` is the bootloader's answer, 0 if it has none. The functions of uACPI are arguments.
module _ (uacpi_initialize uacpi_namespace_load : Cmd Acpi ℕ) where
  unfoldable pub acpi_init : (address : ℕ) → Cmd Acpi (Unit {0})
  unfolding map_table map_root acpi_find_sdt check_fadt madt_init hpet_init
  acpi_init zero = fail no_rsdp
  acpi_init (suc p) = do
    modify (λ a. record a { rsdp = add64 (suc p) a.hhdm })
    rsdp ← gets (λ a. a.rsdp)
    map_table rsdp rsdp_size
    map_root
    fadt ← acpi_find_sdt signature_facp 0
    check_fadt fadt
    madt_init
    hpet_init
    uacpi_initialize
    uacpi_namespace_load
    pure tt
