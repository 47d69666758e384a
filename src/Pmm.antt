-- ===== src/Pmm.antt =====
-- kernel/src/mm/pmm.c: the allocator of physical pages, after initialisation.
pub mod Bits
pub mod Scan
pub mod Alloc
pub mod Memory
pub mod Free
pub mod RoundTrip
pub mod Owners
mod Tests
pub mod Init
use cynix.Base.{
  ℕ, zero, suc, ◌+◌, ◌-◌, ◌/◌, ◌%◌, ◌^◌, Bool, true, false, Option, none, some, ◌==◌, if◌then◌else◌,
  add64, sub64, mul64, update,
}
use cynix.Base.Run.{Cmd, ok, trap, out_of_memory, gets, modify, pure, fail, zoom, ◌>>=◌, ◌>>◌}
use cynix.Machine.{Machine, page_size, interrupt_toggle}
use cynix.Misc.{Bytes, bit_test, bit_set, bit_reset}
use cynix.Spinlock.{spinlock_acquire, spinlock_release}

-- `(uintptr_t)-1LL`
abbrev pub no_page : ℕ
no_page = 2 ^ 64 - 1

-- `for (i = first; ...; i++) bit_set(pmm_bitmap, i)`, with the rounds left
unfoldable pub set_bits : Bytes → (first rounds : ℕ) → Bytes
set_bits bitmap i zero = bitmap
set_bits bitmap i (suc n) = set_bits (bit_set bitmap i) (i + 1) n

pub reset_bits : Bytes → (first rounds : ℕ) → Bytes
reset_bits bitmap i zero = bitmap
reset_bits bitmap i (suc n) = reset_bits (bit_reset bitmap i) (i + 1) n

-- `p` after the page at `index` was found free
unfoldable pub next_run : (count index p : ℕ) → ℕ
next_run count index p = if sub64 index p % count == 0 then p + 1 else 0

-- What `pmm_inner_alloc` returns, and the two statics that it leaves behind.
abbrev pub Scan : Type 0
Scan = ℕ × Bytes × ℕ

-- The loop of `pmm_inner_alloc`, with `limit - pmm_last_used_index` rounds left; `last` is
-- `pmm_last_used_index` before its increment, which cannot wrap below `limit`. `none` is the division
-- exception of `% count` at a count of 0.
unfoldable pub inner_loop : (count rounds : ℕ) → Bytes → (last p : ℕ) → Option Scan
inner_loop count zero bitmap last p = some (no_page, bitmap, last)
inner_loop count (suc rounds) bitmap last p =
    let p' = next_run count last p in
    let page_index = sub64 (last + 1) count in
    let run_on = inner_loop count rounds bitmap (last + 1) p' in
    let skip = inner_loop count rounds bitmap (last + 1) 0 in
    if bit_test bitmap last
    then skip
    else if count == 0
    then none
    else if p' == count
    then some
        (mul64 page_index page_size, set_bits bitmap page_index (last + 1 - page_index), last + 1)
    else run_on

unfoldable pub pmm_inner_alloc : (count limit : ℕ) → Cmd Machine ℕ
unfolding inner_loop next_run
pmm_inner_alloc count limit m =
    let last = m.pmm_last_used_index in
    elim (inner_loop count (limit - last) m.pmm_bitmap last 0) [
      | none ↦ trap
      | some (ret, bitmap, last') ↦
          ok ret (record m { pmm_bitmap = bitmap; pmm_last_used_index = last' })
    ]

abbrev on_pmm_lock : {A : Type 0} → Cmd Bool A → Cmd Machine A
on_pmm_lock = zoom (λ m. m.pmm_lock) (λ lock m. record m { pmm_lock = lock })

-- `spinlock_acquire(&pmm_lock)`
unfoldable pub acquire_pmm : Cmd Machine (Unit {0})
unfolding spinlock_acquire
acquire_pmm m = on_pmm_lock (spinlock_acquire m.interrupts) m

unfoldable pub release_pmm : Cmd Machine (Unit {0})
unfolding spinlock_release
release_pmm = on_pmm_lock spinlock_release

-- The second search, over the pages before the first one's start.
search_again : (count last : ℕ) → Cmd Machine ℕ
search_again count last = do
  modify (λ m. record m { pmm_last_used_index = 0 })
  ret ← pmm_inner_alloc count last
  if ret == no_page then fail out_of_memory else pure ret

unfoldable pub pmm_alloc_nozero : (count : ℕ) → Cmd Machine ℕ
unfolding search_again interrupt_toggle acquire_pmm release_pmm
pmm_alloc_nozero count = do
  old_int_state ← interrupt_toggle false
  acquire_pmm
  last ← gets (λ m. m.pmm_last_used_index)
  limit ← gets (λ m. m.pmm_avl_page_count)
  first ← pmm_inner_alloc count limit
  ret ← (if first == no_page then search_again count last else pure first)
  release_pmm
  interrupt_toggle old_int_state
  pure ret

-- `for (i = 0; ...; i++) ptr[i] = value` over 64-bit words, with the rounds left
pub fill_words : (ℕ → ℕ) → (ptr value i rounds : ℕ) → ℕ → ℕ
fill_words word ptr value i zero = word
fill_words word ptr value i (suc n) =
    fill_words (update word (add64 ptr (mul64 8 i)) value) ptr value (i + 1) n

-- `(count * PAGE_SIZE) / sizeof(uint64_t)`
abbrev pub page_words : ℕ → ℕ
page_words count = mul64 count page_size / 8

pub pmm_alloc : (count : ℕ) → Cmd Machine ℕ
pmm_alloc count = do
  ret ← pmm_alloc_nozero count
  modify (λ m. record m { word = fill_words m.word (add64 ret m.hhdm) 0 0 (page_words count) })
  pure ret

abbrev pub free_pattern : ℕ
free_pattern = 0xaaaa_aaaa_aaaa_aaaa

pub pmm_free : (page count : ℕ) → Cmd Machine (Unit {0})
unfolding interrupt_toggle acquire_pmm release_pmm
pmm_free page count = do
  modify (λ m. record m {
    word = fill_words m.word (add64 page m.hhdm) free_pattern 0 (page_words count);
  })
  old_int_state ← interrupt_toggle false
  acquire_pmm
  modify (λ m.
      let index = page / page_size in
      record m { pmm_bitmap = reset_bits m.pmm_bitmap index (add64 index count - index) })
  release_pmm
  interrupt_toggle old_int_state
  pure tt
