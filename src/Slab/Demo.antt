-- ===== src/Slab/Demo.antt =====
-- Slabs that are set up but have no block, on a machine of 1024 pages.
use cynix.Base.{◌^◌, refl, true, false, none, [], arith}
use cynix.Machine.{Machine}
use cynix.Pmm.Alloc.{IsValid}
use cynix.Slab.Calls.{IsSlabs}
use cynix.Slab.Init.{IsBooted}
use cynix.Slab.Classes.{class_size}
use cynix.Slab.{Slabs}

abbrev pub demo_machine : Machine
demo_machine = record {
  interrupts = false;
  hhdm = 2 ^ 20;
  word = λ _. 0;
  mm_init_done = true;
  memmap = [];
  pmm_init_done = true;
  pmm_lock = false;
  pmm_bitmap = λ _. 0;
  pmm_avl_page_count = 1024;
  pmm_last_used_index = 0;
}

abbrev pub demo_slabs : Slabs
demo_slabs = record {
  machine = demo_machine;
  slabs_at = 2 ^ 30;
  stale = 7;
  lock = λ _. false;
  first_free = λ _. 0;
  ent_size = class_size;
}

demo_machine-IsValid : IsValid demo_machine
demo_machine-IsValid = record {
  bytes = λ i. omega arith;
  unlocked = refl;
  small = omega arith;
  mapped = omega arith;
  last_in = omega arith;
}

pub demo_slabs-IsBooted : IsBooted demo_slabs
demo_slabs-IsBooted = record {
  valid = demo_machine-IsValid;
  quiet = refl;
  aligned = refl;
  table = omega arith;
}

pub demo_slabs-IsSlabs : IsSlabs 12 demo_slabs (λ _. none)
demo_slabs-IsSlabs = record {
  blocks = λ _. none;
  free = λ _. [];
  heap = record {
    valid = demo_machine-IsValid;
    quiet = refl;
    aligned = refl;
    table = omega arith;
    few = omega arith;
    sizes = λ i lt. refl;
    header = λ c i e. absurd (cc);
    taken = λ c i e. absurd (cc);
    chain = λ i lt. refl;
    distinct = λ i lt. tt;
    free_entry = λ i a lt f. absurd f;
    live_entry = λ a i e. absurd (cc);
  };
  unlocked = λ i lt. refl;
}
