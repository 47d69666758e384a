-- ===== src/Pmm/Init.antt =====
-- `pmm_init` of kernel/src/mm/pmm.c.
pub mod Size
pub mod Marks
pub mod Result
use cynix.Base.{
  ℕ, zero, suc, ◌+◌, ◌*◌, ◌/◌, Bool, true, false, not, ◌&&◌, ◌||◌, Option, none, some, List, [],
  ◌∷◌, ltb, leb, if◌then◌else◌, add64, sub64,
}
use cynix.Base.Run.{Cmd, modify, gets, pure, ◌>>=◌, ◌>>◌}
use cynix.Generic.{BootInfo, mm_init}
use cynix.Memmap.{MemmapEntry, is_usable, is_ram}
use cynix.Machine.{Machine, page_size}
use cynix.Misc.{Bytes, div_roundup, align_up, bit_reset}

unfoldable pub entry_top : MemmapEntry → ℕ
unfolding align_up
entry_top e = align_up (add64 e.base e.length) page_size

-- The first loop of `pmm_init`.
unfoldable pub top_address : (top : ℕ) → List MemmapEntry → ℕ
unfolding entry_top
top_address top [] = top
top_address top (e ∷ es) =
    top_address (if is_ram e.kind && ltb top (entry_top e) then entry_top e else top) es

unfoldable pub avl_page_count : List MemmapEntry → ℕ
unfolding top_address div_roundup
avl_page_count es = div_roundup (top_address 0 es) page_size

unfoldable pub bitmap_size : (page_count : ℕ) → ℕ
unfolding align_up
bitmap_size page_count = align_up (page_count / 8) page_size

-- The second loop: where the bitmap goes. Without a large enough entry `pmm_bitmap` stays `NULL`.
unfoldable pub place_bitmap : (hhdm size : ℕ) → List MemmapEntry → Option ℕ
place_bitmap hhdm size [] = none
place_bitmap hhdm size (e ∷ es) =
    if is_usable e.kind && ltb size e.length
    then some (add64 e.base hhdm)
    else place_bitmap hhdm size es

-- `memset(pmm_bitmap, 0xff, bitmap_size)` over what the memory held
unfoldable pub memset_ff : Bytes → (size : ℕ) → Bytes
memset_ff before size i = if ltb i size then 0xff else before i

-- The page at physical address `base` overlaps the bitmap.
unfoldable pub in_bitmap : (phys size base : ℕ) → Bool
in_bitmap phys size base =
    let top = add64 base page_size in
    (leb phys base && ltb base (add64 phys size)) || (ltb phys top && leb top (add64 phys size))

-- One page of the third loop.
unfoldable pub clear_page : (phys size : ℕ) → Bytes → (base : ℕ) → Bytes
unfolding in_bitmap
clear_page phys size bitmap base =
    if in_bitmap phys size base then bitmap else bit_reset bitmap (base / page_size)

-- The pages of one entry, from offset `j` on, with the rounds left.
unfoldable pub clear_pages : (phys size : ℕ) → Bytes → (base j rounds : ℕ) → Bytes
unfolding clear_page
clear_pages phys size bitmap base j zero = bitmap
clear_pages phys size bitmap base j (suc n) =
    clear_pages phys size (clear_page phys size bitmap (add64 base j)) base (j + page_size) n

-- `for (j = 0; j < length; j += PAGE_SIZE)` makes this many rounds where `j` does not wrap.
abbrev pub page_rounds : ℕ → ℕ
page_rounds length = (length + 4095) / page_size

unfoldable pub clear_entries : (phys size : ℕ) → Bytes → List MemmapEntry → Bytes
unfolding clear_pages
clear_entries phys size bitmap [] = bitmap
clear_entries phys size bitmap (e ∷ es) =
    let cleared = clear_pages phys size bitmap e.base 0 (page_rounds e.length) in
    clear_entries phys size (if is_usable e.kind then cleared else bitmap) es

-- All but the guard and `mm_init`. `memory` is what the bytes at a virtual address held before.
unfoldable pub set_up : (memory : ℕ → Bytes) → Machine → Machine
unfolding avl_page_count bitmap_size place_bitmap memset_ff clear_entries
set_up memory m =
    let page_count = avl_page_count m.memmap in
    let size = bitmap_size page_count in
    let placed : ℕ × Bytes = elim (place_bitmap m.hhdm size m.memmap) [
      | none ↦ (0, memory 0)
      | some ptr ↦ (ptr, memset_ff (memory ptr) size)
    ] in
    record m {
      pmm_avl_page_count = page_count;
      pmm_bitmap = clear_entries (sub64 placed.0 m.hhdm) size placed.1 m.memmap;
      pmm_init_done = true;
    }

unfoldable pub pmm_init : BootInfo → (memory : ℕ → Bytes) → Cmd Machine (Unit {0})
unfolding mm_init set_up
pmm_init boot memory = do
  done ← gets (λ m. m.pmm_init_done)
  if done then pure tt else (mm_init boot >> modify (set_up memory))
