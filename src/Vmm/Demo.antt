-- ===== src/Vmm/Demo.antt =====
-- A pagemap with one table, on a machine of 16 pages.
use cynix.Base.{
  ℕ, ◌≡◌, refl, ap, false, true, Option, none, some, [], ◌∷◌, arith, ◌==◌, if◌then◌else◌, length,
}
use cynix.Machine.{Machine}
use cynix.Misc.{Bytes, bit_test}
use cynix.Vmm.{Vmm}
use cynix.Vmm.Tables.{Prefix, IsTree}
use cynix.Vmm.Map.{IsPagemap}

abbrev pub demo_bitmap : Bytes
demo_bitmap i = if i == 0 then 2 else 0

abbrev pub demo_machine : Machine
demo_machine = record {
  interrupts = true;
  hhdm = 0xffff_8000_0000_0000;
  word = λ a. 0;
  mm_init_done = true;
  memmap = [];
  pmm_init_done = true;
  pmm_lock = false;
  pmm_bitmap = demo_bitmap;
  pmm_avl_page_count = 16;
  pmm_last_used_index = 3;
}

abbrev pub demo : Vmm
demo = record {
  machine = demo_machine;
  vmm_la57 = false;
  spinlock = false;
  top_level = 0x1000;
  cr3 = 0;
}

abbrev pub demo_label : ℕ → Option Prefix
demo_label page = if page == 1 then some [] else none

only_root : (page : ℕ) (p : Prefix) → demo_label page ≡ some p → (page ≡ 1) × (p ≡ [])
only_root page p e = ground arith

page_one : bit_test demo_bitmap 1 ≡ true
unfolding bit_test
page_one = refl

demo-IsTree : IsTree demo_machine 4 1 demo_label
demo-IsTree = record {
  top = refl;
  root_only = λ page e. (only_root page [] e).0;
  shallow = λ page p e. omega (arith, ap length (only_root page p e).1);
  in_memory = λ page p e. let is = (only_root page p e).0 in rw is (omega arith, page_one);
  children = λ page p i e lt ji on. absurd (cc);
  linked = λ page i p e. absurd (let nil = (only_root page (i ∷ p) e).1 in cc);
}

pub demo-IsPagemap : IsPagemap demo 1 demo_label
demo-IsPagemap = record {
  ready = record {
    valid = record {
      bytes = λ i. ground arith;
      unlocked = refl;
      small = omega arith;
      mapped = omega arith;
      last_in = omega arith;
    };
    narrow = omega arith;
    tree = demo-IsTree;
  };
  at_root = refl;
  unlocked = refl;
}
