-- ===== src/Machine.antt =====
-- The state that the memory code shares: one CPU's interrupt flag, the direct map of physical memory
-- and the statics of mm/generic.c and mm/pmm.c; sys/cpu.k.h's interrupt flag operations on it.
use cynix.Base.{ℕ, List, Bool}
use cynix.Base.Run.{Cmd, gets, modify, ◌>>=◌, ◌>>◌, pure}
use cynix.Memmap.{MemmapEntry}
use cynix.Misc.{Bytes}

pub record Machine : Type 0 where
  -- the IF bit of RFLAGS
  pub interrupts : Bool
  -- where the bootloader maps physical address 0
  pub hhdm : ℕ
  -- the 64-bit word at each virtual address; the code modelled over it accesses aligned words only
  pub word : ℕ → ℕ
  -- the statics of mm/generic.c
  pub mm_init_done : Bool
  pub memmap : List MemmapEntry
  -- the statics of mm/pmm.c
  pub pmm_init_done : Bool
  pub pmm_lock : Bool
  pub pmm_bitmap : Bytes
  pub pmm_avl_page_count : ℕ
  pub pmm_last_used_index : ℕ

abbrev pub page_size : ℕ
page_size = 4096

unfoldable pub interrupt_state : Cmd Machine Bool
interrupt_state = gets (λ m. m.interrupts)

unfoldable pub interrupt_toggle : Bool → Cmd Machine Bool
unfolding interrupt_state
interrupt_toggle state = do
  ret ← interrupt_state
  modify (λ m. record m { interrupts = state })
  pure ret
