-- ===== src/Alloc/Outcome.antt =====
-- What `realloc` of a live block can come to.
use cynix.Base.{ℕ, ◌+◌, ◌-◌, ◌≤◌, ◌<◌, ◌≡◌, ◌≢◌, true, false, if◌then◌else◌}
use cynix.Base.Run.{Run, ok, panics, out_of_memory}
use cynix.Machine.{Machine, page_size}
use cynix.Misc.{bit_test, min_of}
use cynix.Pmm.Alloc.{IsValid}
use cynix.Pmm.Scan.{FreeRun}
use cynix.Pmm.Bits.{in_run}
use cynix.Alloc.Blocks.{Block, count}
use cynix.Alloc.Copy.{SameBytes}

-- The block's pages are marked in use.
abbrev pub InUse : (m : Machine) (first n : ℕ) → Type 0
InUse m first n = (j : ℕ) → first ≤ j → j < first + n → bit_test m.pmm_bitmap j ≡ true

-- What `realloc` of the block comes to: it stays where the number of pages is the same, it moves with
-- its bytes and the old pages are free again, or memory has run out.
pub data Reallocated (m : Machine) (ptr size new : ℕ) (b : Block m ptr size) (r : Run Machine ℕ)
    : Type 0 where
  stays :
      b.pages ≡ count new
      → (m' : Machine) → r ≡ ok ptr m'
      → IsValid m'
      → Block m' ptr new
      → ((a : ℕ) → a ≢ ptr - page_size + 8 → m'.word a ≡ m.word a)
      → ((j : ℕ) → bit_test m'.pmm_bitmap j ≡ bit_test m.pmm_bitmap j)
      → Reallocated m ptr size new b r
  moves :
      b.pages ≢ count new
      → (ptr' : ℕ) (m' : Machine) (c : Block m' ptr' new) → r ≡ ok ptr' m'
      → IsValid m'
      → SameBytes ptr' ptr m.word m'.word (min_of new size)
      → FreeRun m.pmm_bitmap c.page (c.pages + 1)
      → ((j : ℕ)
          → bit_test m'.pmm_bitmap j ≡ (
              if in_run b.page (b.pages + 1) j
              then false
              else if in_run c.page (c.pages + 1) j
              then true
              else bit_test m.pmm_bitmap j))
      → Reallocated m ptr size new b r
  no_memory : b.pages ≢ count new → r ≡ panics out_of_memory → Reallocated m ptr size new b r
