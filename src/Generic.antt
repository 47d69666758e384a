-- ===== src/Generic.antt =====
-- kernel/src/mm/generic.c: what the kernel takes over from the bootloader.
use cynix.Base.{ℕ, true, Option, none, some, List, if◌then◌else◌}
use cynix.Base.Run.{Cmd, no_hhdm, no_memmap, gets, modify, pure, fail, ◌>>=◌, ◌>>◌}
use cynix.Memmap.{MemmapEntry}
use cynix.Machine.{Machine}

-- The responses of the two Limine requests; `none` is `NULL`.
pub record BootInfo : Type 0 where
  pub hhdm_offset : Option ℕ
  pub memmap_entries : Option (List MemmapEntry)

take_hhdm : Option ℕ → Cmd Machine (Unit {0})
take_hhdm none = fail no_hhdm
take_hhdm (some offset) = modify (λ m. record m { hhdm = offset })

take_memmap : Option (List MemmapEntry) → Cmd Machine (Unit {0})
take_memmap none = fail no_memmap
take_memmap (some entries) = modify (λ m. record m { memmap = entries })

unfoldable pub mm_init : BootInfo → Cmd Machine (Unit {0})
unfolding take_hhdm take_memmap
mm_init boot = do
  done ← gets (λ m. m.mm_init_done)
  if done then pure tt else (do
    take_hhdm boot.hhdm_offset
    take_memmap boot.memmap_entries
    modify (λ m. record m { mm_init_done = true }))
