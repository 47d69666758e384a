-- ===== src/Slab.antt =====
-- kernel/src/mm/slab.c: entries of twelve sizes, cut out of blocks of 64 pages.
pub mod Classes
pub mod Sizes
pub mod Chains
pub mod Create
pub mod Entries
pub mod Heap
pub mod Moves
pub mod Grown
pub mod Calls
pub mod Refill
pub mod Frees
pub mod Init
pub mod Requests
pub mod Resize
pub mod Owners
pub mod Demo
mod Tests
use cynix.Base.{
  ℕ, zero, suc, ◌+◌, ◌-◌, ◌*◌, ◌/◌, ◌^◌, bit_and, Bool, false, Option, none, some, leb, ltb, ◌==◌,
  if◌then◌else◌, add64, sub64, mul64, update,
}
use cynix.Base.Run.{Cmd, gets, modify, pure, zoom, ◌>>=◌, ◌>>◌}
use cynix.Machine.{Machine, page_size}
use cynix.Misc.{align_up}
use cynix.Pmm.{pmm_alloc_nozero}
use cynix.Spinlock.{spinlock_acquire, spinlock_release}
use cynix.Alloc.{copy_bytes}

-- The array `slabs`, a member at a time, and the memory. `slabs_at` is its address, and `stale` what
-- `bsr` leaves in its destination for an argument of 0.
pub record Slabs : Type 0 where
  pub machine : Machine
  pub slabs_at : ℕ
  pub stale : ℕ
  pub lock : ℕ → Bool
  pub first_free : ℕ → ℕ
  pub ent_size : ℕ → ℕ

-- The highest bit set among the bits 0 to `k`
unfoldable pub highest_bit : (k x : ℕ) → ℕ
highest_bit zero x = 0
highest_bit (suc k) x = if leb (2 ^ suc k) x then suc k else highest_bit k x

unfoldable pub bsr : (stale x : ℕ) → ℕ
unfolding highest_bit
bsr stale x = if x == 0 then stale else highest_bit 63 x

unfoldable pub slab_for : (stale size : ℕ) → Option ℕ
unfolding bsr
slab_for stale size =
    let bit = bsr stale size in
    if leb bit 2 then some 0 else if leb bit 13 then some (bit - 2) else none

abbrev pub on_machine : {A : Type 0} → Cmd Machine A → Cmd Slabs A
on_machine = zoom (λ s. s.machine) (λ m s. record s { machine = m })

-- `&slabs[slab]`: a slab takes 24 bytes.
abbrev pub slab_address : Slabs → (slab : ℕ) → ℕ
slab_address s slab = add64 s.slabs_at (mul64 24 slab)

abbrev pub slab_at : Slabs → (address : ℕ) → ℕ
slab_at s address = sub64 address s.slabs_at / 24

abbrev pub set_first_free : (slab address : ℕ) → Cmd Slabs (Unit {0})
set_first_free slab address =
    modify (λ s. record s { first_free = update s.first_free slab address })

abbrev pub store : (address value : ℕ) → Cmd Slabs (Unit {0})
store address value = on_machine (modify (λ m. record m { word = update m.word address value }))

-- The loop of `create_slab` from entry `i`, with the rounds left
unfoldable pub link_entries : (word : ℕ → ℕ) (arr fact i rounds : ℕ) → ℕ → ℕ
link_entries word arr fact i zero = word
link_entries word arr fact i (suc n) =
    link_entries
      (update word (add64 arr (mul64 8 (i * fact))) (add64 arr (mul64 8 ((i + 1) * fact)))) arr fact
      (i + 1) n

unfoldable pub create_slab : (slab ent_size : ℕ) → Cmd Slabs (Unit {0})
unfolding bsr link_entries align_up
create_slab slab ent_size = do
  modify (λ s. record s { lock = update s.lock slab false })
  phys ← on_machine (pmm_alloc_nozero 64)
  hhdm ← gets (λ s. s.machine.hhdm)
  let slab_ptr = add64 phys hhdm
  set_first_free slab slab_ptr
  modify (λ s. record s { ent_size = update s.ent_size slab ent_size })
  let header_offset = align_up 8 ent_size
  let available_size = sub64 (page_size * 64) header_offset
  address ← gets (λ s. slab_address s slab)
  store slab_ptr address
  let arr = add64 slab_ptr header_offset
  set_first_free slab arr
  stale ← gets (λ s. s.stale)
  let max = sub64 (available_size / 2 ^ bsr stale ent_size) 1
  let fact = ent_size / 8
  on_machine (modify (λ m. record m { word = link_entries m.word arr fact 0 max }))
  store (add64 arr (mul64 8 (max * fact))) 0

abbrev pub acquire_slab : (slab : ℕ) → Cmd Slabs (Unit {0})
acquire_slab slab s =
    zoom (λ (t : Slabs). t.lock slab) (λ held t. record t { lock = update t.lock slab held })
      (spinlock_acquire s.machine.interrupts) s

abbrev pub release_slab : (slab : ℕ) → Cmd Slabs (Unit {0})
release_slab slab =
    zoom (λ t. t.lock slab) (λ held t. record t { lock = update t.lock slab held }) spinlock_release

unfoldable pub refill : (slab : ℕ) → Cmd Slabs (Unit {0})
unfolding create_slab
refill slab = do
  head ← gets (λ s. s.first_free slab)
  ent_size ← gets (λ s. s.ent_size slab)
  if head == 0 then create_slab slab ent_size else pure tt

unfoldable pub alloc_from_slab : (slab : ℕ) → Cmd Slabs ℕ
unfolding refill spinlock_acquire spinlock_release
alloc_from_slab slab = do
  acquire_slab slab
  refill slab
  old_free ← gets (λ s. s.first_free slab)
  next ← gets (λ s. s.machine.word old_free)
  set_first_free slab next
  release_slab slab
  pure old_free

unfoldable pub push_entry : (slab addr : ℕ) → Cmd Slabs (Unit {0})
push_entry slab addr = do
  head ← gets (λ s. s.first_free slab)
  store addr head
  set_first_free slab addr

unfoldable pub free_in_slab : (slab addr : ℕ) → Cmd Slabs (Unit {0})
unfolding push_entry spinlock_acquire spinlock_release
free_in_slab slab addr = do
  acquire_slab slab
  if addr == 0 then pure tt else push_entry slab addr
  release_slab slab

-- The calls of `create_slab` in `slab_init`, from slab `i` on
unfoldable pub init_slabs : (i rounds : ℕ) → Cmd Slabs (Unit {0})
unfolding create_slab
init_slabs i zero = pure tt
init_slabs i (suc n) = create_slab i (2 ^ (i + 3)) >> init_slabs (i + 1) n

unfoldable pub slab_init : Cmd Slabs (Unit {0})
unfolding init_slabs
slab_init = init_slabs 0 12

unfoldable pub alloc_from : Option ℕ → Cmd Slabs ℕ
unfolding alloc_from_slab
alloc_from (some slab) = alloc_from_slab slab
alloc_from none = pure 0

unfoldable pub slab_alloc : (size : ℕ) → Cmd Slabs ℕ
unfolding slab_for alloc_from
slab_alloc size = do stale ← gets (λ s. s.stale); alloc_from (slab_for stale size)

-- `*(addr & ~0x3ffff)`: the slab that the header of the entry's block names
unfoldable pub slab_of : (addr : ℕ) → Cmd Slabs ℕ
slab_of addr = gets (λ s. slab_at s (s.machine.word (bit_and addr (2 ^ 64 - 1 - 0x3ffff))))

unfoldable pub move_entry : (slab addr new_size : ℕ) → Cmd Slabs ℕ
unfolding slab_alloc free_in_slab copy_bytes
move_entry slab addr new_size = do
  new_addr ← slab_alloc new_size
  if new_addr == 0 then pure 0 else (do
    ent_size ← gets (λ s. s.ent_size slab)
    on_machine (modify (λ m. record m { word = copy_bytes m.word new_addr addr ent_size }))
    free_in_slab slab addr
    pure new_addr)

unfoldable pub slab_realloc : (addr new_size : ℕ) → Cmd Slabs ℕ
unfolding slab_alloc slab_of move_entry
slab_realloc zero new_size = slab_alloc new_size
slab_realloc (suc a) new_size = do
  slab ← slab_of (suc a)
  ent_size ← gets (λ s. s.ent_size slab)
  if ltb ent_size new_size then move_entry slab (suc a) new_size else pure (suc a)

unfoldable pub slab_free : (addr : ℕ) → Cmd Slabs (Unit {0})
unfolding slab_of free_in_slab
slab_free zero = pure tt
slab_free (suc a) = do slab ← slab_of (suc a); free_in_slab slab (suc a)
