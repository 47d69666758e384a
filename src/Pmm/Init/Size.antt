-- ===== src/Pmm/Init/Size.antt =====
-- How many pages the bitmap has room for.
use cynix.Base.{ℕ, ◌*◌, ◌%◌, ◌^◌, ◌≤◌, ◌<◌, ◌≡◌, ◌⊎◌, ◌↔◌, arith}
use cynix.Pmm.Init.{bitmap_size}

-- For a page count below 2 ^ 52, the bitmap of `bitmap_size` bytes has a bit for every page
-- exactly if the count modulo 32768 is 0 or at least 8.
pub bitmap_size_covers :
    (pages : ℕ)
    → pages < 2 ^ 52
    → (pages ≤ 8 * bitmap_size pages) ↔ ((pages % 32768 ≡ 0) ⊎ (8 ≤ pages % 32768))
unfolding bitmap_size
bitmap_size_covers pages small = (λ h. ground arith, λ h. omega arith)
