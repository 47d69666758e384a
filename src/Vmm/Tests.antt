-- ===== src/Vmm/Tests.antt =====
-- A page is mapped on a machine of 16 pages, with the top-level table in page 1.
use cynix.Base.{false, true, some, [], ◌∷◌, refl, arith}
use cynix.Base.Outcome.{Outcome}
use cynix.Machine.{Machine}
use cynix.Memmap.{usable}
use cynix.Pmm.Alloc.{IsValid}
use cynix.Vmm.{Vmm, vmm_map_page, vmm_map_span}
use cynix.Vmm.Booted.{Fails}
use cynix.Vmm.Init.{Loader, vmm_init}
use cynix.Vmm.Kernel.{IsKernelMap, vmm_init-IsKernelMap}
use cynix.Vmm.Tables.{walk}
use cynix.Vmm.Span.{with_pages, Spanned, vmm_map_span-Spanned}
use cynix.Vmm.Map.{Mapped, vmm_map_page-Mapped}
use cynix.Vmm.Demo.{demo_machine, demo, demo_label, demo-IsPagemap}

vmm_map_page-Mapped_example :
    Mapped demo 1 demo_label 0xffff_8000_0000_5000 0x5003
      (vmm_map_page 0xffff_8000_0000_5000 0x5000 3 demo)
vmm_map_page-Mapped_example = vmm_map_page-Mapped 0xffff_8000_0000_5000 0x5000 3 demo-IsPagemap

vmm_map_span-Spanned_example :
    Spanned demo 1
      (with_pages false 0xffff_8000_0000_5000 0x5000 3 0 2 (walk demo_machine 1))
      (vmm_map_span 0xffff_8000_0000_5000 0x5000 5000 3 demo)
vmm_map_span-Spanned_example =
    vmm_map_span-Spanned 0xffff_8000_0000_5000 0x5000 3 5000 (omega arith) demo 1 demo_label
      (omega arith) demo-IsPagemap

-- One entry of the memory map, and a kernel of one segment
abbrev boot_machine : Machine
boot_machine = record demo_machine {
  memmap = record { base = 0; length = 0x4000; kind = usable } ∷ [];
}

boot_machine-IsValid : IsValid boot_machine
boot_machine-IsValid = record {
  bytes = λ i. ground arith;
  unlocked = refl;
  small = omega arith;
  mapped = omega arith;
  last_in = omega arith;
}

abbrev before : Vmm
before = record demo { machine = boot_machine; top_level = 0 }

abbrev loader : Loader
loader = record {
  five_levels = some true;
  executable_address = some (0x2000, 0xffff_ffff_8000_0000);
  program_headers =
      record { p_type = 1; p_flags = 5; p_vaddr = 0xffff_ffff_8000_0000; p_memsz = 5000 } ∷ [];
}

vmm_init-IsKernelMap_example :
    Outcome Fails (λ _ v'. IsKernelMap loader before v') (vmm_init loader before)
vmm_init-IsKernelMap_example =
    vmm_init-IsKernelMap loader before boot_machine-IsValid (omega arith) refl (omega arith, tt)
