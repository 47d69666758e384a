-- ===== src/Alloc.antt =====
-- kernel/src/lib/alloc.c: blocks of whole pages, each behind a page that holds its size.
pub mod Blocks
pub mod Copy
pub mod Outcome
pub mod Move
pub mod Resize
pub mod Fresh
mod Tests
use cynix.Base.{
  ℕ, zero, suc, ◌+◌, ◌*◌, ◌/◌, ◌%◌, ◌^◌, Bool, ◌==◌, if◌then◌else◌, add64, sub64, update,
}
use cynix.Base.Run.{Cmd, gets, modify, pure, ◌>>=◌, ◌>>◌}
use cynix.Machine.{Machine, page_size}
use cynix.Misc.{div_roundup, min_of}
use cynix.Pmm.{pmm_alloc, pmm_free}

-- `metadata->pages` and `metadata->size`, at the address of the metadata
unfoldable pub pages_of : (metadata : ℕ) → Cmd Machine ℕ
pages_of metadata = gets (λ m. m.word metadata)

unfoldable pub size_of : (metadata : ℕ) → Cmd Machine ℕ
size_of metadata = gets (λ m. m.word (add64 metadata 8))

abbrev pub set_word : (address value : ℕ) → Cmd Machine (Unit {0})
set_word address value = modify (λ m. record m { word = update m.word address value })

unfoldable pub free : (ptr : ℕ) → Cmd Machine (Unit {0})
unfolding pages_of
free zero = pure tt
free (suc p) = do
  let metadata = sub64 (suc p) page_size
  hhdm ← gets (λ m. m.hhdm)
  pages ← pages_of metadata
  pmm_free (sub64 metadata hhdm) (add64 pages 1)

unfoldable pub alloc : (size : ℕ) → Cmd Machine ℕ
unfolding div_roundup
alloc size = do
  let page_count = div_roundup size page_size
  phys_page ← pmm_alloc (add64 page_count 1)
  hhdm ← gets (λ m. m.hhdm)
  let metadata = add64 phys_page hhdm
  set_word metadata page_count
  set_word (add64 metadata 8) size
  pure (add64 metadata page_size)

-- `memcpy` of `n` bytes between 8-aligned addresses, by words; the last word takes the bytes that
-- are left over from the source and keeps the others.
unfoldable pub copy_words : (word : ℕ → ℕ) (dest src i n : ℕ) → ℕ → ℕ
copy_words word dest src i zero = word
copy_words word dest src i (suc n) =
    copy_words (update word (add64 dest (8 * i)) (word (add64 src (8 * i)))) dest src (i + 1) n

unfoldable pub copy_bytes : (word : ℕ → ℕ) (dest src n : ℕ) → ℕ → ℕ
unfolding copy_words
copy_bytes word dest src n =
    let copied = copy_words word dest src 0 (n / 8) in
    let to = add64 dest (8 * (n / 8)) in
    let from = add64 src (8 * (n / 8)) in
    let bits = 2 ^ (8 * (n % 8)) in
    if n % 8 == 0 then copied else update copied to (copied from % bits + copied to / bits * bits)

unfoldable pub keep_block : (ptr new_size : ℕ) → Cmd Machine ℕ
keep_block ptr new_size = do set_word (add64 (sub64 ptr page_size) 8) new_size; pure ptr

unfoldable pub move_block : (ptr new_size : ℕ) → Cmd Machine ℕ
unfolding alloc free size_of copy_bytes min_of
move_block ptr new_size = do
  new_ptr ← alloc new_size
  old_size ← size_of (sub64 ptr page_size)
  modify (λ m. record m { word = copy_bytes m.word new_ptr ptr (min_of new_size old_size) })
  free ptr
  pure new_ptr

unfoldable pub realloc : (ptr new_size : ℕ) → Cmd Machine ℕ
unfolding alloc pages_of keep_block move_block div_roundup
realloc zero new_size = alloc new_size
realloc (suc p) new_size = do
  pages ← pages_of (sub64 (suc p) page_size)
  if pages == div_roundup new_size page_size
      then keep_block (suc p) new_size
      else move_block (suc p) new_size
