-- ===== src/Gdt.antt =====
-- kernel/src/sys/gdt.c: the segment descriptors.
pub mod Segments
mod Tests
use cynix.Base.{ℕ, ◌+◌, ◌-◌, ◌*◌, ◌/◌, ◌%◌, ◌^◌, ◌<◌, ◌≡◌, refl, Bool, bit_or, update, arith}
use cynix.Base.Run.{Cmd, gets, modify, pure, zoom, ◌>>=◌, ◌>>◌}
use cynix.Spinlock.{spinlock_acquire, spinlock_release}

pub record GdtDescriptor : Type 0 where
  pub limit : ℕ
  pub base_low16 : ℕ
  pub base_mid8 : ℕ
  pub access : ℕ
  pub granularity : ℕ
  pub base_high8 : ℕ

abbrev pub gdt_kernel_code_sel : ℕ
gdt_kernel_code_sel = 0x08

abbrev pub gdt_kernel_data_sel : ℕ
gdt_kernel_data_sel = 0x10

abbrev pub gdt_user_code_sel : ℕ
gdt_user_code_sel = 0x1b

abbrev pub gdt_user_data_sel : ℕ
gdt_user_data_sel = 0x23

abbrev pub gdt_tss_sel : ℕ
gdt_tss_sel = 0x28

-- The statics of gdt.c and the selector in the task register.
pub record Gdt : Type 0 where
  pub interrupts : Bool
  pub gdt_lock : Bool
  pub gdt : ℕ → GdtDescriptor
  pub task_register : ℕ

unfoldable pub segment : (access granularity : ℕ) → GdtDescriptor
segment access granularity = record {
  limit = 0;
  base_low16 = 0;
  base_mid8 = 0;
  access = access;
  granularity = granularity;
  base_high8 = 0;
}

unfoldable pub set_descriptor : (index : ℕ) → GdtDescriptor → Cmd Gdt (Unit {0})
set_descriptor index d = modify (λ s. record s { gdt = update s.gdt index d })

-- What `gdt_init` stores; the reload at its end is assembly.
unfoldable pub gdt_init : Cmd Gdt (Unit {0})
unfolding segment set_descriptor
gdt_init = do
  set_descriptor 0 (segment 0 0)
  set_descriptor 1 (segment 0b10011011 0b00100000)
  set_descriptor 2 (segment 0b10010011 0)
  set_descriptor 3 (segment 0b11111011 0b00100000)
  set_descriptor 4 (segment 0b11110011 0)

-- `sizeof(struct cpu_tss)`, which is packed: two 32-bit members around twelve 64-bit ones
abbrev pub tss_size : ℕ
tss_size = 4 + 12 * 8 + 4

-- The two halves of the TSS descriptor; the stores truncate to the members' widths.
unfoldable pub tss_low : ℕ → GdtDescriptor
tss_low tss_int = record {
  limit = tss_size - 1;
  base_low16 = tss_int % 2 ^ 16;
  base_mid8 = tss_int / 2 ^ 16 % 2 ^ 8;
  access = 0b10001001;
  granularity = 0;
  base_high8 = tss_int / 2 ^ 24 % 2 ^ 8;
}

unfoldable pub tss_high : ℕ → GdtDescriptor
tss_high tss_int = record {
  limit = tss_int / 2 ^ 32 % 2 ^ 16;
  base_low16 = tss_int / 2 ^ 48 % 2 ^ 16;
  base_mid8 = 0;
  access = 0;
  granularity = 0;
  base_high8 = 0;
}

abbrev on_lock : Cmd Bool (Unit {0}) → Cmd Gdt (Unit {0})
on_lock = zoom (λ s. s.gdt_lock) (λ lock s. record s { gdt_lock = lock })

-- `ltr` of the TSS selector, which also marks the descriptor as busy
unfoldable load_task_register : Cmd Gdt (Unit {0})
load_task_register = do
  low ← gets (λ s. s.gdt (gdt_tss_sel / 8))
  modify (λ s. record s {
    gdt = update s.gdt (gdt_tss_sel / 8) (record low { access = bit_or low.access 2 });
    task_register = gdt_tss_sel;
  })

unfoldable pub gdt_load_tss : (tss : ℕ) → Cmd Gdt (Unit {0})
unfolding load_task_register set_descriptor tss_low tss_high spinlock_acquire spinlock_release
gdt_load_tss tss = do
  on ← gets (λ s. s.interrupts)
  on_lock (spinlock_acquire on)
  set_descriptor 5 (tss_low tss)
  set_descriptor 6 (tss_high tss)
  load_task_register
  on_lock spinlock_release
