-- ===== src/Misc/Align.antt =====
-- What the rounding macros compute where nothing wraps.
use cynix.Base.{ℕ, ◌+◌, ◌%◌, ◌≤◌, ◌<◌, ◌≡◌, arith, word_mod}
use cynix.Misc.{align_up, align_down}

-- Rounding by PAGE_SIZE.
pub align_up_page :
    (v : ℕ)
    → v + 4095 < word_mod
    → (align_up v 4096 % 4096 ≡ 0) × (v ≤ align_up v 4096) × (align_up v 4096 < v + 4096)
unfolding align_up
align_up_page v h = omega arith

pub align_down_page :
    (v : ℕ)
    → v < word_mod
    → (align_down v 4096 % 4096 ≡ 0) × (align_down v 4096 ≤ v) × (v < align_down v 4096 + 4096)
unfolding align_down
align_down_page v h = omega arith
