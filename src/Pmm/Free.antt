-- ===== src/Pmm/Free.antt =====
-- `pmm_free`, and the zeroing allocation.
use cynix.Base.{
  ℕ, ◌+◌, ◌-◌, ◌*◌, ◌/◌, ◌%◌, ◌≤◌, ◌<◌, ◌≡◌, refl, true, false, arith, if◌then◌else◌, add64,
}
use cynix.Base.Run.{ok}
use cynix.Machine.{Machine, page_size}
use cynix.Misc.{bit_test}
use cynix.Pmm.{
  set_bits, reset_bits, fill_words, page_words, free_pattern, pmm_alloc_nozero, pmm_free,
}
use cynix.Pmm.Bits.{
  in_run, bit_test-set_bits, bit_test-reset_bits, set_bits-IsBytes, reset_bits-IsBytes,
}
use cynix.Pmm.Scan.{FreeRun}
use cynix.Pmm.Alloc.{
  IsValid, acquire_pmm-ok, taken, Allocated, allocated, out_of_pages, pmm_alloc_nozero-Allocated,
}

-- The machine once the `n` pages from `page` on are given back, their words overwritten.
abbrev pub returned : Machine → (n page : ℕ) → Machine
returned m n page = record m {
  word = fill_words m.word (page * page_size + m.hhdm) free_pattern 0 (n * 512);
  pmm_bitmap = reset_bits m.pmm_bitmap page n;
  pmm_lock = false;
}

pub pmm_free_lem :
    (m : Machine) (n page : ℕ)
    → IsValid m
    → 0 < n
    → page + n ≤ m.pmm_avl_page_count
    → pmm_free (page * page_size) n m ≡ ok tt (returned m n page)
unfolding pmm_free
pmm_free_lem m n page v pos fits =
    let before : Machine = record m {
      interrupts = false;
      word = fill_words m.word (add64 (page * page_size) m.hhdm) free_pattern 0 (page_words n);
    } in
    let index : page * page_size / page_size ≡ page = omega arith in
    let rounds : add64 page n - page ≡ n = omega (arith, v.small) in
    let words : page_words n ≡ n * 512 = omega (arith, v.small) in
    let base : add64 (page * page_size) m.hhdm ≡ page * page_size + m.hhdm =
      omega (arith, v.mapped) in
    rw (acquire_pmm-ok before refl v.unlocked, index, rounds, words, base)

pub taken-IsValid :
    (m : Machine) (n page : ℕ)
    → IsValid m
    → page + n ≤ m.pmm_avl_page_count
    → IsValid (taken m n page)
taken-IsValid m n page v fits = record {
  bytes = set_bits-IsBytes m.pmm_bitmap page n v.bytes;
  unlocked = refl;
  small = v.small;
  mapped = v.mapped;
  last_in = fits;
}

pub returned-IsValid : (m : Machine) (n page : ℕ) → IsValid m → IsValid (returned m n page)
returned-IsValid m n page v = record {
  bytes = reset_bits-IsBytes m.pmm_bitmap page n v.bytes;
  unlocked = refl;
  small = v.small;
  mapped = v.mapped;
  last_in = v.last_in;
}

module _ (m : Machine) (n page : ℕ) (v : IsValid m) where
  -- After an allocation exactly the pages handed out are in use besides those that were.
  pub bit_test-taken :
      (j : ℕ)
      → bit_test (taken m n page).pmm_bitmap j
        ≡ (if in_run page n j then true else bit_test m.pmm_bitmap j)
  bit_test-taken j = bit_test-set_bits m.pmm_bitmap page n j v.bytes

  pub bit_test-returned :
      (j : ℕ)
      → bit_test (returned m n page).pmm_bitmap j
        ≡ (if in_run page n j then false else bit_test m.pmm_bitmap j)
  bit_test-returned j = bit_test-reset_bits m.pmm_bitmap page n j v.bytes

  pub returned-taken :
      FreeRun m.pmm_bitmap page n
      → (j : ℕ) → bit_test (returned (taken m n page) n page).pmm_bitmap j ≡ bit_test m.pmm_bitmap j
  returned-taken free j = ground (
    arith,
    bit_test-reset_bits (set_bits m.pmm_bitmap page n) page n j
        (set_bits-IsBytes m.pmm_bitmap page n v.bytes),
    bit_test-taken j,
    free j,
  )

-- What a successful call tells: which pages it took.
pub record Took (m : Machine) (n addr : ℕ) (m' : Machine) : Type 0 where
  pub page : ℕ
  pub address : addr ≡ page * page_size
  pub aligned : page % n ≡ 0
  pub fits : page + n ≤ m.pmm_avl_page_count
  pub free : FreeRun m.pmm_bitmap page n
  pub state : m' ≡ taken m n page

pub pmm_alloc_nozero-Took :
    {m : Machine} (n : ℕ) {addr : ℕ} {m' : Machine}
    → IsValid m
    → 0 < n
    → pmm_alloc_nozero n m ≡ ok addr m'
    → Took m n addr m'
pmm_alloc_nozero-Took {m} n {addr} {m'} v pos e = go (pmm_alloc_nozero-Allocated m v n pos)
  where
    go : Allocated m n (taken m n) (pmm_alloc_nozero n m) → Took m n addr m'
    go (allocated page a fits f k r _) = record {
      page = page;
      address = cc;
      aligned = a;
      fits = fits;
      free = f;
      state = cc;
    }
    go (out_of_pages h k r) = absurd (cc)
