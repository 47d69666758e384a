-- ===== src/Pmm/Tests.antt =====
-- The page allocator on a machine of 16 pages, of which page 1 is in use.
use cynix.Base.{
  ℕ, ◌+◌, ◌*◌, ◌%◌, ◌≤◌, ◌<◌, ◌≡◌, refl, ◌⊎◌, ◌↔◌, true, false, not, ◌&&◌, List, [], ◌∷◌, none,
  some, arith, ◌==◌, if◌then◌else◌, update,
}
use cynix.Base.Run.{ok, panics, out_of_memory}
use cynix.Memmap.{MemmapEntry, usable, reserved}
use cynix.Machine.{Machine, page_size}
use cynix.Misc.{Bytes, bit_test, bit_set}
use cynix.Misc.Bitmap.{IsBytes}
use cynix.Pmm.{set_bits, pmm_inner_alloc, pmm_alloc_nozero, pmm_alloc, pmm_free}
use cynix.Pmm.Alloc.{
  IsValid, taken, Allocated, pmm_alloc_nozero-Allocated, pmm_alloc_nozero-straddling,
}
use cynix.Pmm.RoundTrip.{Outside, blank, pmm_alloc-Allocated, pmm_free-pmm_alloc}
use cynix.Pmm.Owners.{World, Reach, here, next, allocate, unowned, Reach-exclusive}
use cynix.Pmm.Init.{set_up, avl_page_count, bitmap_size, place_bitmap}
use cynix.Pmm.Init.Marks.{covers}
use cynix.Pmm.Init.Size.{bitmap_size_covers}
use cynix.Pmm.Init.Result.{holds_bitmap, set_up-free}

abbrev demo_bitmap : Bytes
demo_bitmap i = if i == 0 then 2 else 0

abbrev demo : Machine
demo = record {
  interrupts = true;
  hhdm = 0xffff_8000_0000_0000;
  word = λ a. 7;
  mm_init_done = true;
  memmap = [];
  pmm_init_done = true;
  pmm_lock = false;
  pmm_bitmap = demo_bitmap;
  pmm_avl_page_count = 16;
  pmm_last_used_index = 3;
}

demo_bitmap-IsBytes : IsBytes demo_bitmap
demo_bitmap-IsBytes i = ground arith

demo-IsValid : IsValid demo
demo-IsValid = record {
  bytes = demo_bitmap-IsBytes;
  unlocked = refl;
  small = omega arith;
  mapped = omega arith;
  last_in = omega arith;
}

demo_alloc : pmm_alloc_nozero 2 demo ≡ ok 0x4000 (taken demo 2 4)
unfolding pmm_alloc_nozero pmm_inner_alloc set_bits bit_set bit_test
demo_alloc = refl

pmm_alloc_nozero-Allocated_example : Allocated demo 2 (taken demo 2) (pmm_alloc_nozero 2 demo)
pmm_alloc_nozero-Allocated_example = pmm_alloc_nozero-Allocated demo demo-IsValid 2 (omega arith)

pmm_alloc_nozero-straddling_example : pmm_alloc_nozero 14 demo ≡ panics out_of_memory
pmm_alloc_nozero-straddling_example =
    pmm_alloc_nozero-straddling demo demo-IsValid 14 (omega arith) (omega arith) (omega arith)

pmm_alloc-Allocated_example :
    Allocated demo 2 (blank demo 2) (pmm_alloc 2 demo)
    × ((page : ℕ)
        → page + 2 ≤ 16
        → ((k : ℕ)
            → k < 2 * 512
            → (blank demo 2 page).word (page * page_size + demo.hhdm + 8 * k) ≡ 0)
          × ((a : ℕ) → Outside (page * page_size + demo.hhdm) 2 a → (blank demo 2 page).word a ≡ 7))
pmm_alloc-Allocated_example = pmm_alloc-Allocated 2 demo-IsValid (omega arith)

pmm_free-pmm_alloc_example :
    (m : Machine) × (pmm_free 0x4000 2 (taken demo 2 4) ≡ ok tt m)
    × IsValid m
    × ((j : ℕ) → bit_test m.pmm_bitmap j ≡ bit_test demo_bitmap j)
    × (m.interrupts ≡ true)
pmm_free-pmm_alloc_example = pmm_free-pmm_alloc 2 demo-IsValid (omega arith) demo_alloc

-- Two blocks are handed out, and the first is given back.
abbrev demo_second : Machine
demo_second = taken (taken demo 2 4) 1 6

demo_alloc_again : pmm_alloc_nozero 1 (taken demo 2 4) ≡ ok 0x6000 demo_second
unfolding pmm_alloc_nozero pmm_inner_alloc set_bits bit_set bit_test
demo_alloc_again = refl

abbrev demo_world : World
demo_world = record {
  machine = demo_second;
  owned =
      update (update (λ _. none) 0 (some (record { first = 4; count = 2 }))) 1
        (some (record { first = 6; count = 1 }));
  calls = 2;
}

demo-Reach : Reach (unowned demo) demo_world
demo-Reach =
    next (next here (allocate 4 2 (omega arith) demo_alloc refl))
      (allocate 6 1 (omega arith) demo_alloc_again refl)

Reach-exclusive_example : (◌≡◌ {A = ℕ} 1 1) × (bit_test demo_second.pmm_bitmap 6 ≡ true)
Reach-exclusive_example =
    Reach-exclusive demo demo-IsValid demo-Reach 1 1 (record { first = 6; count = 1 })
      (record { first = 6; count = 1 }) 6 refl refl (omega arith) (omega arith)

-- Boot memory: a reserved page, then 2 MiB that hold the bitmap in their first page.
abbrev boot_map : List MemmapEntry
boot_map =
    record { base = 0; length = 0x1000; kind = reserved }
    ∷ record { base = 0x1000; length = 0x200_000; kind = usable }
    ∷ []

abbrev booting : Machine
booting = record demo { memmap = boot_map; pmm_init_done = false; pmm_last_used_index = 0 }

boot_placed :
    place_bitmap booting.hhdm (bitmap_size (avl_page_count boot_map)) boot_map
    ≡ some 0xffff_8000_0000_1000
unfolding place_bitmap bitmap_size avl_page_count
boot_placed = refl

boot_pages : (avl_page_count boot_map ≡ 513) × (bitmap_size 513 ≡ 4096)
unfolding bitmap_size avl_page_count
boot_pages = (refl, refl)

abbrev boot_memory : ℕ → Bytes
boot_memory ptr i = 0

set_up-free_example :
    bit_test (set_up boot_memory booting).pmm_bitmap 5
    ≡ not (covers boot_map 5 && not (holds_bitmap boot_memory booting 0xffff_8000_0000_1000 5))
set_up-free_example =
    set_up-free boot_memory booting 0xffff_8000_0000_1000 (omega arith) (omega arith)
      (λ i. omega arith) boot_placed 5 (omega (arith, boot_pages.0))
      (rw boot_pages.0 (rw boot_pages.1 (omega arith)))

bitmap_size_covers_example :
    (32770 ≤ 8 * bitmap_size 32770) ↔ (◌≡◌ {A = ℕ} (32770 % 32768) 0 ⊎ (8 ≤ 32770 % 32768))
bitmap_size_covers_example = bitmap_size_covers 32770 (omega arith)
