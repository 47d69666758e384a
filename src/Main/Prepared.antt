-- ===== src/Main/Prepared.antt =====
-- The descriptor tables, the gates and the page tables once `kmain` has made them.
use cynix.Base.{ℕ, ◌^◌, ◌≤◌, ◌≡◌, ◌⊎◌, false, some}
use cynix.Base.Outcome.{Outcome}
use cynix.Base.Run.{Reason, Run, out_of_memory}
use cynix.Gdt.{Gdt}
use cynix.Gdt.Segments.{IsFlat}
use cynix.Idt.Gates.{IsSetUp}
use cynix.Machine.{Machine}
use cynix.Main.{Bootloader, System}
use cynix.Main.Start as Start
use cynix.Mp.Kernel.{Kernel, vmm_of}
use cynix.Pmm.Alloc.{IsValid}
use cynix.Slab.Init.{Kept}
use cynix.Vmm.{Vmm}
use cynix.Vmm.Booted as Booted
use cynix.Vmm.Booted.{AreShort}
use cynix.Vmm.Kernel.{IsKernelMap}

-- The memory runs out, a table has the address 0, or the bootloader does not answer.
abbrev pub Fails : Reason → Type 0
Fails reason = Start.Fails reason ⊎ Booted.Fails reason

module _ {Screen : Type 0} where
  -- The segments are flat, each vector has its gate, and the kernel's page tables are in use, which
  -- translate the memory map that the bootloader gives from where it puts the direct map.
  pub record IsPrepared (isr_thunks : ℕ → ℕ) (boot : Bootloader) (abort : ℕ) (s : System Screen)
      : Type 0 where
    pub descriptors : Gdt
    pub flat : IsFlat descriptors
    pub used : s.kernel.gdt ≡ descriptors.gdt
    pub gates : IsSetUp isr_thunks s.idt abort
    pub before : Vmm
    pub informed : boot.info.hhdm_offset ≡ some before.machine.hhdm
    pub mapped : boot.info.memmap_entries ≡ some before.machine.memmap
    pub tables : IsKernelMap boot.loader before (vmm_of s.kernel)

  -- What the steps after `slab_init` rely on and keep
  record IsReady (boot : Bootloader) (s : System Screen) : Type 0 where
    valid : IsValid s.kernel.machine
    narrow : s.kernel.machine.pmm_avl_page_count ≤ 2 ^ 40
    unlocked : s.kernel.pagemap_lock ≡ false
    short : AreShort boot.loader.program_headers
    informed : boot.info.hhdm_offset ≡ some s.kernel.machine.hhdm
    mapped : boot.info.memmap_entries ≡ some s.kernel.machine.memmap

  module _ (isr_thunks : ℕ → ℕ) (boot : Bootloader) (abort : ℕ) where
    abbrev Done : Run (System Screen) (Unit {0}) → Type 0
    Done = Outcome Fails (λ _. IsPrepared isr_thunks boot abort)

abbrev pub NoMemory : Reason → Type 0
NoMemory reason = reason ≡ out_of_memory

-- flanterm works on memory through `alloc` and `free` alone.
abbrev pub Harmless : {Screen A : Type 0} → Machine → Run (Machine × Screen) A → Type 0
Harmless m = Outcome NoMemory (λ _ x. IsValid x.0 × Kept m x.0)
