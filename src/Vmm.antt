-- ===== src/Vmm.antt =====
-- kernel/src/mm/vmm.c and vmm.k.h: the kernel's page tables.
pub mod Init
pub mod Flags
pub mod Tables
pub mod Grow
pub mod GrowTree
pub mod Level
pub mod Leaf
pub mod Descent
pub mod Path
pub mod Map
pub mod Span
pub mod Booted
pub mod Kernel
pub mod Demo
mod Tests
use cynix.Base.{
  ℕ, zero, suc, ◌+◌, ◌-◌, ◌*◌, ◌/◌, ◌^◌, bit_and, bit_or, Bool, true, false, Option, none, some,
  List, [], ◌∷◌, ltb, leb, ◌==◌, if◌then◌else◌, add64, sub64, mul64, update,
}
use cynix.Base.Run.{
  Cmd, vmm_init_failure, no_exec_address, gets, modify, pure, fail, zoom, ◌>>=◌, ◌>>◌,
}
use cynix.Memmap.{
  MemmapType, MemmapEntry, usable, bootloader_reclaimable, executable_and_modules, framebuffer,
}
use cynix.Machine.{Machine, page_size, interrupt_toggle}
use cynix.Misc.{align_up, align_down}
use cynix.Pmm.{pmm_alloc}
use cynix.Spinlock.{spinlock_acquire, spinlock_release}

abbrev pub pte_present : ℕ
pte_present = 1

abbrev pub pte_writable : ℕ
pte_writable = 2

abbrev pub pte_user : ℕ
pte_user = 4

abbrev pub pte_noexec : ℕ
pte_noexec = 2 ^ 63

abbrev pub pte_wc : ℕ
pte_wc = 2 ^ 3 + 2 ^ 7

-- The bits 0 to 11 and 63; the mask's other terms lie among them.
abbrev pub pte_flags_mask : ℕ
pte_flags_mask = 0xfff + pte_noexec

-- The statics of vmm.c, with the one pagemap that the kernel has.
pub record Vmm : Type 0 where
  pub machine : Machine
  pub vmm_la57 : Bool
  pub spinlock : Bool
  pub top_level : ℕ
  pub cr3 : ℕ

abbrev pub on_machine : {A : Type 0} → Cmd Machine A → Cmd Vmm A
on_machine = zoom (λ v. v.machine) (λ m v. record v { machine = m })

-- `spinlock_acquire(&pagemap->spinlock)`
unfoldable pub acquire_pagemap : Cmd Vmm (Unit {0})
unfolding spinlock_acquire
acquire_pagemap v =
    zoom (λ (v : Vmm). v.spinlock) (λ lock v. record v { spinlock = lock })
      (spinlock_acquire v.machine.interrupts) v

unfoldable pub release_pagemap : Cmd Vmm (Unit {0})
unfolding spinlock_release
release_pagemap = zoom (λ v. v.spinlock) (λ lock v. record v { spinlock = lock }) spinlock_release

unfoldable pub vmm_switch_pagemap : Cmd Vmm (Unit {0})
vmm_switch_pagemap = modify (λ v. record v { cr3 = v.top_level })

-- `(void *)current_level + hhdm + index * 8`
unfoldable pub entry_address : (current_level index : ℕ) → Machine → ℕ
entry_address current_level index m = add64 (add64 current_level m.hhdm) (mul64 index 8)

unfoldable pub store : (address value : ℕ) → Cmd Machine (Unit {0})
store address value = modify (λ m. record m { word = update m.word address value })

-- The branch for an entry that is not present.
unfoldable pub new_level : (entry : ℕ) (allocate : Bool) → Cmd Machine ℕ
unfolding store
new_level entry false = pure 0
new_level entry true = do ret ← pmm_alloc 1; store entry (bit_or ret 7); pure ret

unfoldable pub get_next_level : (current_level index : ℕ) (allocate : Bool) → Cmd Machine ℕ
unfolding entry_address new_level
get_next_level current_level index allocate = do
  entry ← gets (entry_address current_level index)
  value ← gets (λ m. m.word entry)
  if bit_and value 1 == 0
      then new_level entry allocate
      else pure (bit_and value (2 ^ 64 - 1 - pte_flags_mask))

-- `(virt & ((uint64_t)0x1ff << shift)) >> shift`
unfoldable pub table_index : (virt shift : ℕ) → ℕ
table_index virt shift = bit_and virt (0x1ff * 2 ^ shift) / 2 ^ shift

unfoldable pub vmm_map_page : (virt phys flags : ℕ) → Cmd Vmm (Unit {0})
unfolding interrupt_toggle acquire_pagemap release_pagemap entry_address store
vmm_map_page virt phys flags = do
  old_int_state ← on_machine (interrupt_toggle false)
  acquire_pagemap
  la57 ← gets (λ v. v.vmm_la57)
  pml5 ← gets (λ v. v.top_level)
  pml4 ← (if la57 then on_machine (get_next_level pml5 (table_index virt 48) true) else pure pml5)
  pml3 ← on_machine (get_next_level pml4 (table_index virt 39) true)
  pml2 ← on_machine (get_next_level pml3 (table_index virt 30) true)
  pml1 ← on_machine (get_next_level pml2 (table_index virt 21) true)
  entry ← gets (λ v. entry_address pml1 (table_index virt 12) v.machine)
  on_machine (store entry (bit_or phys flags))
  release_pagemap
  on_machine (interrupt_toggle old_int_state)
  pure tt

-- `for (i = 0; i < length; i += PAGE_SIZE)`, with the rounds left
unfoldable pub map_pages : (virt phys flags i rounds : ℕ) → Cmd Vmm (Unit {0})
map_pages virt phys flags i zero = pure tt
map_pages virt phys flags i (suc n) =
    vmm_map_page (add64 virt i) (add64 phys i) flags >> map_pages virt phys flags (i + page_size) n

abbrev pub page_rounds : ℕ → ℕ
page_rounds length = (length + 4095) / page_size

unfoldable pub vmm_map_span : (virt phys len flags : ℕ) → Cmd Vmm (Unit {0})
unfolding map_pages align_up align_down
vmm_map_span virt phys len flags =
    let aligned_phys_top = align_up (add64 phys len) page_size in
    let aligned_phys_base = align_down phys page_size in
    let aligned_virt_base = align_down virt page_size in
    let aligned_length = sub64 aligned_phys_top aligned_phys_base in
    map_pages aligned_virt_base aligned_phys_base flags 0 (page_rounds aligned_length)

-- `ALIGN_UP(len, PAGE_SIZE)` of a `ptrdiff_t`, stored in a `size_t`: the division of a negative number
-- rounds to 0.
unfoldable pub align_up_signed : (len : ℕ) → ℕ
align_up_signed len =
    let sum = add64 len 4095 in
    if ltb sum (2 ^ 63)
    then sum / page_size * page_size
    else sub64 0 ((2 ^ 64 - sum) / page_size * page_size)

unfoldable pub map_kernel_span : (virt phys len flags : ℕ) → Cmd Vmm (Unit {0})
unfolding map_pages align_up_signed
map_kernel_span virt phys len flags =
    map_pages virt phys flags 0 (page_rounds (align_up_signed len))
