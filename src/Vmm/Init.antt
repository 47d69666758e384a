-- ===== src/Vmm/Init.antt =====
-- `vmm_init` of kernel/src/mm/vmm.c.
use cynix.Base.{
  ℕ, zero, suc, ◌+◌, ◌-◌, bit_and, bit_or, Bool, true, false, Option, none, some, List, [], ◌∷◌,
  ◌==◌, if◌then◌else◌, add64, sub64,
}
use cynix.Base.Run.{Cmd, vmm_init_failure, no_exec_address, gets, modify, pure, fail, ◌>>=◌, ◌>>◌}
use cynix.Memmap.{
  MemmapType, MemmapEntry, usable, bootloader_reclaimable, executable_and_modules, framebuffer,
}
use cynix.Machine.{page_size}
use cynix.Misc.{align_up, align_down}
use cynix.Pmm.{pmm_alloc}
use cynix.Vmm.{
  Vmm, pte_present, pte_writable, pte_noexec, pte_wc, on_machine, get_next_level, map_pages,
  page_rounds, map_kernel_span, vmm_switch_pagemap,
}

-- The fields of `Elf64_Phdr` that the kernel reads.
pub record ProgramHeader : Type 0 where
  pub p_type : ℕ
  pub p_flags : ℕ
  pub p_vaddr : ℕ
  pub p_memsz : ℕ

-- `PT_LOAD`, `PF_X` and `PF_W` of the ELF specification
abbrev pub pt_load : ℕ
pt_load = 1

abbrev pub pf_x : ℕ
pf_x = 1

abbrev pub pf_w : ℕ
pf_w = 2

-- What the bootloader answers: whether paging has five levels, where the kernel lies, and the
-- program headers of its file.
pub record Loader : Type 0 where
  pub five_levels : Option Bool
  pub executable_address : Option (ℕ × ℕ)
  pub program_headers : List ProgramHeader

-- Every higher half table of the top level, with the rounds left.
unfoldable pub share_higher_half : (i rounds : ℕ) → Cmd Vmm (Unit {0})
share_higher_half i zero = pure tt
share_higher_half i (suc n) = do
  top ← gets (λ v. v.top_level)
  next ← on_machine (get_next_level top i true)
  if next == 0 then fail vmm_init_failure else share_higher_half (i + 1) n

unfoldable pub segment_flags : (p_flags : ℕ) → ℕ
segment_flags p_flags =
    let flags = if bit_and p_flags pf_x == 0 then bit_or pte_present pte_noexec else pte_present in
    if bit_and p_flags pf_w == 0 then flags else bit_or flags pte_writable

unfoldable pub map_segments :
    (physical_base virtual_base : ℕ) → List ProgramHeader → Cmd Vmm (Unit {0})
unfolding segment_flags map_kernel_span
map_segments physical_base virtual_base [] = pure tt
map_segments physical_base virtual_base (h ∷ hs) =
    let phys = add64 (sub64 h.p_vaddr virtual_base) physical_base in
    let load = map_kernel_span h.p_vaddr phys h.p_memsz (segment_flags h.p_flags) in
    (if h.p_type == pt_load then load else pure tt) >> map_segments physical_base virtual_base hs

-- The entries that `vmm_init` puts into the direct map.
abbrev pub is_mapped : MemmapType → Bool
is_mapped usable = true
is_mapped bootloader_reclaimable = true
is_mapped executable_and_modules = true
is_mapped framebuffer = true
is_mapped _ = false

abbrev pub caching : MemmapType → ℕ
caching framebuffer = pte_wc
caching _ = 0

unfoldable pub direct_flags : MemmapType → ℕ
direct_flags kind = bit_or (bit_or (bit_or pte_present pte_noexec) pte_writable) (caching kind)

unfoldable pub map_entries : List MemmapEntry → Cmd Vmm (Unit {0})
unfolding direct_flags map_pages
map_entries [] = pure tt
map_entries (e ∷ es) =
    let base = align_down e.base page_size in
    let top = align_up (add64 e.base e.length) page_size in
    let entry : Cmd Vmm (Unit {0}) = λ v.
      map_pages (add64 base v.machine.hhdm) base (direct_flags e.kind) 0 (page_rounds (top - base))
        v in
    (if is_mapped e.kind then entry else pure tt) >> map_entries es

unfoldable pub map_image : Option (ℕ × ℕ) → List ProgramHeader → Cmd Vmm (Unit {0})
map_image none hs = fail no_exec_address
map_image (some (physical_base, virtual_base)) hs = map_segments physical_base virtual_base hs

abbrev pub uses_five : Option Bool → Bool
uses_five (some true) = true
uses_five _ = false

-- All of `vmm_init` but the choice of the number of levels
unfoldable pub build_tables : Loader → Cmd Vmm (Unit {0})
build_tables boot = do
  top ← on_machine (pmm_alloc 1)
  modify (λ v. record v { top_level = top })
  share_higher_half 256 256
  map_image boot.executable_address boot.program_headers
  memmap ← gets (λ v. v.machine.memmap)
  map_entries memmap
  vmm_switch_pagemap

unfoldable pub vmm_init : Loader → Cmd Vmm (Unit {0})
unfolding build_tables
vmm_init boot = do
  modify (λ v. if uses_five boot.five_levels then record v { vmm_la57 = true } else v)
  build_tables boot
