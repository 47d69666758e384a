-- ===== src/Alloc/Tests.antt =====
-- Blocks on a machine of 16 pages, of which pages 1 to 3 are in use.
use cynix.Base.{◌≡◌, refl, arith, if◌then◌else◌, true, false, [], ◌==◌}
use cynix.Machine.{Machine}
use cynix.Misc.{bit_test}
use cynix.Pmm.Alloc.{IsValid}
use cynix.Alloc.{alloc, realloc}
use cynix.Alloc.Blocks.{Block, Allocation, alloc-Allocation}
use cynix.Alloc.Outcome.{InUse, Reallocated}
use cynix.Alloc.Resize.{realloc-Reallocated}

-- Pages 2 and 3 are a block of 100 bytes, each byte of which is 7.
abbrev demo : Machine
demo = record {
  interrupts = true;
  hhdm = 0x1_0000_0000;
  word = λ a.
      if a == 0x1_0000_2000 then 1 else if a == 0x1_0000_2008 then 100 else 0x0707_0707_0707_0707;
  mm_init_done = true;
  memmap = [];
  pmm_init_done = true;
  pmm_lock = false;
  pmm_bitmap = λ i. if i == 0 then 0b1110 else 0;
  pmm_avl_page_count = 16;
  pmm_last_used_index = 4;
}

demo-IsValid : IsValid demo
demo-IsValid = record {
  bytes = λ i. ground arith;
  unlocked = refl;
  small = omega arith;
  mapped = omega arith;
  last_in = omega arith;
}

abbrev demo_block : Block demo 0x1_0000_3000 100
demo_block = record {
  page = 2;
  pages = 1;
  address = refl;
  fits = omega arith;
  roomy = omega arith;
  says_pages = refl;
  says_size = refl;
}

two : bit_test demo.pmm_bitmap 2 ≡ true
unfolding bit_test
two = refl

three : bit_test demo.pmm_bitmap 3 ≡ true
unfolding bit_test
three = refl

demo-InUse : InUse demo 2 2
demo-InUse j lo hi = ground (arith, two, three)

alloc-Allocation_example : Allocation demo 5000 (alloc 5000 demo)
alloc-Allocation_example = alloc-Allocation 5000 demo-IsValid (omega arith) (omega arith)

realloc-Reallocated_example :
    Reallocated demo 0x1_0000_3000 100 9000 demo_block (realloc 0x1_0000_3000 9000 demo)
realloc-Reallocated_example =
    realloc-Reallocated 9000 demo-IsValid demo_block demo-InUse (omega arith) (omega arith)
