-- ===== src/Vmm/Flags.antt =====
-- What the flags and lengths of `vmm_init` come to.
use cynix.Base.{
  ℕ, ◌+◌, ◌*◌, ◌/◌, ◌%◌, ◌^◌, ◌<◌, ◌≡◌, refl, Bool, true, Option, none, some, false, Bool-cases,
  inl, inr, ◌==◌, if◌then◌else◌, bit_and, arith,
}
use cynix.Base.Bits.{bit_and-halves, bit_and-zero_right}
use cynix.Memmap.{
  MemmapType, usable, reserved, acpi_reclaimable, acpi_nvs, bad_memory, bootloader_reclaimable,
  executable_and_modules, framebuffer,
}
use cynix.Vmm.{page_rounds, align_up_signed}
use cynix.Vmm.Init.{segment_flags, is_mapped, direct_flags}

-- A page is present; bit 63 keeps it from being executed, bit 1 lets it be written.
abbrev pub permissions : (executable writable : Bool) → ℕ
permissions executable writable =
    1 + (if writable then 2 else 0) + (if executable then 0 else 2 ^ 63)

low_bit : (p : ℕ) → bit_and p 1 ≡ p % 2
low_bit p = omega (arith, bit_and-halves p 1, bit_and-zero_right (p / 2))

second_bit : (p : ℕ) → bit_and p 2 ≡ 2 * (p / 2 % 2)
second_bit p = omega (arith, bit_and-halves p 2, low_bit (p / 2))

-- PF_X is bit 0 of the flags of a program header, PF_W is bit 1.
pub segment_flags-permissions :
    (p : ℕ) → segment_flags p ≡ permissions (p % 2 == 1) (p / 2 % 2 == 1)
unfolding segment_flags
segment_flags-permissions p = elim (Bool-cases (p % 2 == 1)) [
  | inl x ↦ elim (Bool-cases (p / 2 % 2 == 1)) [
    | inl w ↦ rw (executable x, writable w, x, w) refl
    | inr r ↦ rw (executable x, read_only r, x, r) refl
  ]
  | inr d ↦ elim (Bool-cases (p / 2 % 2 == 1)) [
    | inl w ↦ rw (data_only d, writable w, d, w) refl
    | inr r ↦ rw (data_only d, read_only r, d, r) refl
  ]
]
  where
    executable : (p % 2 == 1) ≡ true → bit_and p 1 ≡ 1
    executable e = ground (arith, low_bit p)

    data_only : (p % 2 == 1) ≡ false → bit_and p 1 ≡ 0
    data_only e = ground (arith, low_bit p)

    writable : (p / 2 % 2 == 1) ≡ true → bit_and p 2 ≡ 2
    writable e = ground (arith, second_bit p)

    read_only : (p / 2 % 2 == 1) ≡ false → bit_and p 2 ≡ 0
    read_only e = ground (arith, second_bit p)

-- The entries that the direct map has, and their flags: present, written, not executed, and for the
-- framebuffer the bits 3 and 7 for write combining
abbrev pub direct : MemmapType → Option ℕ
direct usable = some (2 ^ 63 + 3)
direct reserved = none
direct acpi_reclaimable = none
direct acpi_nvs = none
direct bad_memory = none
direct bootloader_reclaimable = some (2 ^ 63 + 3)
direct executable_and_modules = some (2 ^ 63 + 3)
direct framebuffer = some (2 ^ 63 + 3 + 8 + 128)

pub direct_lem :
    (kind : MemmapType) → direct kind ≡ (if is_mapped kind then some (direct_flags kind) else none)
unfolding direct_flags
direct_lem usable = refl
direct_lem reserved = refl
direct_lem acpi_reclaimable = refl
direct_lem acpi_nvs = refl
direct_lem bad_memory = refl
direct_lem bootloader_reclaimable = refl
direct_lem executable_and_modules = refl
direct_lem framebuffer = refl

pub rounds_signed :
    (len : ℕ) → len + 4095 < 2 ^ 63 → page_rounds (align_up_signed len) ≡ (len + 4095) / 4096
unfolding align_up_signed
rounds_signed len small = ground arith
