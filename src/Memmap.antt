-- ===== src/Memmap.antt =====
-- The bootloader's memory map: `struct limine_memmap_entry` as far as the kernel reads it.
use cynix.Base.{ℕ, Bool, true, false}

pub data MemmapType : Type 0 where
  usable reserved acpi_reclaimable acpi_nvs bad_memory : MemmapType
  bootloader_reclaimable executable_and_modules framebuffer : MemmapType

pub record MemmapEntry : Type 0 where
  pub base : ℕ
  pub length : ℕ
  pub kind : MemmapType

abbrev pub is_usable : MemmapType → Bool
is_usable usable = true
is_usable _ = false

-- The entries that count towards the top address.
abbrev pub is_ram : MemmapType → Bool
is_ram usable = true
is_ram bootloader_reclaimable = true
is_ram executable_and_modules = true
is_ram _ = false
