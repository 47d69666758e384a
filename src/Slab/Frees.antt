-- ===== src/Slab/Frees.antt =====
-- `slab_free` of an entry that is held: its slab is found by the header of its block.
use cynix.Base.{
  ℕ, suc, ◌+◌, ◌-◌, ◌*◌, ◌/◌, ◌^◌, ◌≤◌, ◌<◌, ◌≡◌, ◌≢◌, refl, sym, ap, ◌∙◌, inl, inr, none, bit_and,
  some, true, false, update, update_self, update_ne, update_all, word_mod, arith, subst, ==_false,
  ◌∷◌,
}
use cynix.Base.Bits.{bit_and_high, bit_and_ones}
use cynix.Base.Run.{ok, >>=-ok}
use cynix.Machine.{page_size}
use cynix.Slab.{
  Slabs, slab_at, slab_address, slab_of, push_entry, free_in_slab, alloc_from_slab, slab_free,
}
use cynix.Slab.Classes.{class_size, class}
use cynix.Slab.Create.{block_size}
use cynix.Slab.Entries.{IsEntry, entry_above, entry_below}
use cynix.Slab.Heap.{Live, below_12, here, ready, live_apart}
use cynix.Slab.Moves.{pushed, pushed-IsHeap, with_lock-IsHeap}
use cynix.Slab.Calls.{IsSlabs, Kept, cycled, acquire_slab-ok, release_slab-ok, alloc_from_slab-head}

slab_at-address :
    (s : Slabs) (i : ℕ) → i < 12 → s.slabs_at < word_mod → slab_at s (slab_address s i) ≡ i
slab_at-address s i lt small = omega arith

-- `addr & ~0x3ffff` is where the block of an address starts.
mask_block :
    (c a : ℕ)
    → a < 2 ^ 64
    → c * block_size ≤ a
    → a < c * block_size + block_size
    → bit_and a (2 ^ 64 - 1 - 0x3ffff) ≡ c * block_size
mask_block c a small le lt =
    let high : bit_and a ((2 ^ 46 - 1) * 2 ^ 18) ≡ bit_and (a / 2 ^ 18) (2 ^ 46 - 1) * 2 ^ 18 =
      bit_and_high 18 a (2 ^ 46 - 1) in
    omega (arith, high, bit_and_ones 46 (a / 2 ^ 18))

module _ {n i a : ℕ} {s : Slabs} {live : Live} (h : IsSlabs n s live) (held : live a ≡ some i) where
  abbrev pub lt : i < n
  lt = ready h.heap held

  abbrev pub small : i < 12
  small = below_12 h.heap lt

  abbrev pub entry : IsEntry h.blocks i a
  entry = here h.heap held

  pub held_inside :
      (s.machine.hhdm + 8 ≤ a)
      × (a + class_size i ≤ s.machine.pmm_avl_page_count * page_size + s.machine.hhdm)
  held_inside =
      let t = h.heap.taken entry.block i entry.owner in
      (
        omega (arith, t.above, entry_above small entry, (class 0 i small).some_bytes),
        omega (arith, t.inside, entry_below small entry),
      )

  pub slab_of-held : slab_of a s ≡ ok i s
  unfolding slab_of
  slab_of-held =
      let bytes = (class 0 i small).some_bytes in
      let masked =
        mask_block entry.block a (omega (arith, held_inside.1, h.heap.valid.mapped, bytes))
          (omega (arith, entry_above small entry))
          (omega (arith, entry_below small entry, bytes)) in
      ap (λ k. ok k s)
        (ap (λ x. slab_at s (s.machine.word x)) masked
          ∙ ap (slab_at s) (h.heap.header entry.block i entry.owner).1
          ∙ slab_at-address s i small h.heap.table)

  -- The state once the entry is back on its list
  abbrev pub freed : Slabs
  freed = record (pushed h.heap held) { lock = cycled s.lock i }

  pub free_in_slab-freed : free_in_slab i a s ≡ ok tt freed
  unfolding free_in_slab push_entry
  free_in_slab-freed = rw (
    free_in_slab,
    acquire_slab-ok i s h.heap.quiet (h.unlocked i lt),
    ==_false a 0 (omega (arith, held_inside.0)),
    push_entry,
    release_slab-ok,
  )

  pub freed-IsSlabs : IsSlabs n freed (update live a none)
  freed-IsSlabs = record {
    blocks = h.blocks;
    free = update h.free i (a ∷ h.free i);
    heap = with_lock-IsHeap (pushed-IsHeap h.heap held) (cycled s.lock i);
    unlocked = λ j l.
        update_all (λ j b. j < n → b ≡ false) (update s.lock i true) i false (λ _. refl)
          (λ j ne l. update_ne s.lock true ne ∙ h.unlocked j l) j l;
  }

  pub freed-Kept : Kept (update live a none) s freed
  freed-Kept b j x e le inside = update_ne s.machine.word (s.first_free i) (other (both b e))
    where
      both : (b : ℕ) → update live a none b ≡ some j → (a ≢ b) × (live b ≡ some j)
      both b =
          update_all (λ b o. o ≡ some j → (a ≢ b) × (live b ≡ some j)) live a none
            (λ e. absurd (cc)) (λ b ne e. (ne, e)) b

      other : (a ≢ b) × (live b ≡ some j) → a ≢ x
      other (ne, f) same = elim (live_apart h.heap a b i j held f ne) [
        | inl before ↦ omega (arith, (class 0 i small).some_bytes)
        | inr after ↦ omega arith
      ]

  slab_free-suc : (p : ℕ) → a ≡ suc p → slab_free (suc p) s ≡ ok tt freed
  unfolding slab_free
  slab_free-suc p e =
      >>=-ok (slab_of (suc p)) (λ slab. free_in_slab slab (suc p)) {s = s}
        (subst (λ x. slab_of x s ≡ ok i s) e slab_of-held)
      ∙ subst (λ x. free_in_slab i x s ≡ ok tt freed) e free_in_slab-freed

  pub slab_free-freed : slab_free a s ≡ ok tt freed
  slab_free-freed =
      let p : a ≡ suc (a - 1) = omega (arith, held_inside.0) in
      subst (λ x. slab_free x s ≡ ok tt freed) (sym p) (slab_free-suc (a - 1) p)

  -- On slabs that are set up, `slab_free` of a held entry and then `alloc_from_slab` of its slab
  -- returns the same entry, with every free list starting where it did.
  pub slab_free-alloc_from_slab :
      (t : Slabs) × (u : Slabs) × (slab_free a s ≡ ok tt t)
      × (alloc_from_slab i t ≡ ok a u)
      × ((j : ℕ) → u.first_free j ≡ s.first_free j)
  slab_free-alloc_from_slab =
      let top = update_self s.first_free i a in
      let second = alloc_from_slab-head freed-IsSlabs lt (omega (arith, top, held_inside.0)) in
      let u = record freed {
        first_free = update freed.first_free i (freed.machine.word (freed.first_free i));
        lock = update (update freed.lock i true) i false;
      } in
      (
        freed,
        u,
        slab_free-freed,
        second ∙ ap (λ x. ok x u) top,
        update_all (λ j x. x ≡ s.first_free j) freed.first_free i
            (freed.machine.word (freed.first_free i))
            (ap freed.machine.word top ∙ update_self s.machine.word a (s.first_free i))
            (λ j ne. update_ne s.first_free a ne),
      )
