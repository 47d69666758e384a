-- ===== src/Vmm/Map.antt =====
-- `vmm_map_page`: what the hardware sees before and after.
use cynix.Base.{
  ℕ, ◌+◌, ◌*◌, ◌<◌, ◌≡◌, refl, ap, sym, ◌∙◌, ◌≢◌, Bool, true, false, Option, none, some, List, [],
  ◌∷◌, if◌then◌else◌, length, arith, Bool-cases, inl, inr, bit_or,
}
use cynix.Base.Run.{Run, ok, panics, out_of_memory, Cmd, zoom-ok, zoom-panics}
use cynix.Machine.{Machine, page_size, interrupt_toggle}
use cynix.Vmm.{
  get_next_level, on_machine, Vmm, acquire_pagemap, release_pagemap, entry_address, store,
  table_index, vmm_map_page,
}
use cynix.Vmm.Tables.{SameBoot, slot, is_present, walk, Prefix, IsReady, path_of, AreIndices}
use cynix.Vmm.Level.{Below, Next, reaches, runs_out, get_next_level-Next, entry_address-slot}
use cynix.Vmm.Leaf.{written, written-IsReady, walk-written, walk-others}
use cynix.Vmm.Descent.{Below-trans, Descent, leads, ends_first, ends_second, ends_third, descent}
use cynix.Vmm.Path.{table_index_lem, path, flagged, walk-flagged, flagged-IsReady}

abbrev pub levels : Bool → ℕ
levels la57 = if la57 then 5 else 4

-- The pagemap's tables form a tree below the page `root`, and nobody holds its lock.
pub record IsPagemap (v : Vmm) (root : ℕ) (label : ℕ → Option Prefix) : Type 0 where
  pub ready : IsReady v.machine (levels v.vmm_la57) root label
  pub at_root : v.top_level ≡ root * page_size
  pub unlocked : v.spinlock ≡ false

-- The outcome of mapping the page of `virt` with the entry `value`.
pub data Mapped (v : Vmm) (root : ℕ) (label : ℕ → Option Prefix) (virt value : ℕ)
    (r : Run Vmm (Unit {0})) : Type 0 where
  mapped :
      (m' : Machine) (label' : ℕ → Option Prefix)
      → r ≡ ok tt (record v { machine = m' })
      → IsPagemap (record v { machine = m' }) root label'
      → m'.interrupts ≡ v.machine.interrupts
      → SameBoot v.machine m'
      → walk m' root (path v.vmm_la57 virt) ≡ (if is_present value then some value else none)
      → ((is : List ℕ)
          → length is ≡ levels v.vmm_la57
          → AreIndices is
          → is ≢ path v.vmm_la57 virt
          → walk m' root is ≡ walk v.machine root is)
      → Mapped v root label virt value r
  no_memory : r ≡ panics out_of_memory → Mapped v root label virt value r

module _ {v : Vmm} {root : ℕ} {label : ℕ → Option Prefix} (virt phys flags : ℕ)
    (pm : IsPagemap v root label) where
  abbrev m0 : Machine
  m0 = flagged v.machine false

  abbrev depth : ℕ
  depth = levels v.vmm_la57

  abbrev value : ℕ
  value = bit_or phys flags

  abbrev index : ℕ → ℕ
  index shift = table_index virt shift

  index-lt : (shift : ℕ) → index shift < 512
  index-lt shift = omega (arith, table_index_lem virt shift)

  ready0 : IsReady m0 depth root label
  ready0 = flagged-IsReady false pm.ready

  abbrev last_table : Machine → ℕ → Machine
  last_table m q = flagged (written m q (index 12) value) v.machine.interrupts

  abbrev Outcome : Type 0
  Outcome = Mapped v root label virt value (vmm_map_page virt phys flags v)

  module _ (m : Machine) (q : ℕ) (l : ℕ → Option Prefix) (x : Prefix)
      (b : Below m0 depth root label x q m l) (deep : length x + 1 ≡ depth)
      (way : path_of x (index 12 ∷ []) ≡ path v.vmm_la57 virt) where
    walk-mapped :
        walk (last_table m q) root (path v.vmm_la57 virt)
        ≡ (if is_present value then some value else none)
    walk-mapped =
        walk-flagged (written m q (index 12) value) v.machine.interrupts root (path v.vmm_la57 virt)
        ∙ ap (walk (written m q (index 12) value) root) (sym way)
        ∙ walk-written value b.ready b.named deep (index-lt 12)

    walk-unmapped :
        (is : List ℕ)
        → length is ≡ depth
        → AreIndices is
        → is ≢ path v.vmm_la57 virt
        → walk (last_table m q) root is ≡ walk v.machine root is
    walk-unmapped is d h ne =
        walk-flagged (written m q (index 12) value) v.machine.interrupts root is
        ∙ walk-others value b.ready b.named deep (index-lt 12) is d h (λ e. ne (e ∙ way))
        ∙ b.same is d h
        ∙ walk-flagged v.machine false root is

    maps :
        vmm_map_page virt phys flags v
          ≡ ok tt (record v { machine = last_table m q; spinlock = false })
        → Outcome
    maps e =
        mapped (last_table m q) l (rw e (rw pm.unlocked refl))
          (record {
            ready =
                flagged-IsReady v.machine.interrupts
                  (written-IsReady value b.ready b.named deep (index-lt 12));
            at_root = pm.at_root;
            unlocked = pm.unlocked;
          })
          refl (record { same_hhdm = b.boot.same_hhdm; same_memmap = b.boot.same_memmap })
          walk-mapped walk-unmapped

  abbrev level : ℕ → ℕ → Machine → Run Machine ℕ
  level q s = get_next_level (q * page_size) (index s) true

  at_slot :
      (m : Machine) (q : ℕ) (l : ℕ → Option Prefix) (x : Prefix)
      → Below m0 depth root label x q m l
      → entry_address (q * page_size) (index 12) m ≡ slot m q (index 12)
  at_slot m q l x b =
      entry_address-slot m q (index 12) b.ready.valid (b.ready.tree.in_memory q x b.named).0
        (index-lt 12)

  -- The state while the lock is held.
  abbrev held : Bool → Machine → Vmm
  held la57 m = record {
    machine = m;
    vmm_la57 = la57;
    spinlock = true;
    top_level = root * page_size;
    cr3 = v.cr3;
  }

  returns :
      (la57 : Bool) (c : Cmd Machine ℕ) {m m' : Machine} {a : ℕ}
      → c m ≡ ok a m'
      → on_machine c (held la57 m) ≡ ok a (held la57 m')
  returns la57 c e = zoom-ok (λ w. w.machine) (λ m w. record w { machine = m }) c e

  fails :
      (la57 : Bool) (c : Cmd Machine ℕ) {m : Machine}
      → c m ≡ panics out_of_memory
      → on_machine c (held la57 m) ≡ panics out_of_memory
  fails la57 c e = zoom-panics (λ w. w.machine) (λ m w. record w { machine = m }) c e

  module _ (la57 : v.vmm_la57 ≡ false) where
    way4 : path_of (index 21 ∷ index 30 ∷ index 39 ∷ []) (index 12 ∷ []) ≡ path v.vmm_la57 virt
    way4 =
        rw
          (
            la57,
            table_index_lem virt 39,
            table_index_lem virt 30,
            table_index_lem virt 21,
            table_index_lem virt 12,
          )
          refl

    four :
        Descent depth root root
          (index 39)
          (index 30)
          (index 21)
          m0
          label
          (index 21 ∷ index 30 ∷ index 39 ∷ [])
        → Outcome
    unfolding vmm_map_page interrupt_toggle acquire_pagemap release_pagemap store
    four (leads q₁ q₂ q₃ m₁ m₂ m₃ l e f g b) =
        let slot_is = at_slot m₃ q₃ l _ b in
        maps m₃ q₃ l _ b (rw la57 refl) way4 (
          rw (
            pm.unlocked,
            la57,
            pm.at_root,
            returns false (level root 39) e,
            returns false (level q₁ 30) f,
            returns false (level q₂ 21) g,
            slot_is,
          ))
    four (ends_first e) =
        no_memory (rw (pm.unlocked, la57, pm.at_root, fails false (level root 39) e))
    four (ends_second q₁ m₁ e f) = no_memory (
        rw (
          pm.unlocked,
          la57,
          pm.at_root,
          returns false (level root 39) e,
          fails false (level q₁ 30) f,
        ))
    four (ends_third q₁ q₂ m₁ m₂ e f g) = no_memory (
        rw (
          pm.unlocked,
          la57,
          pm.at_root,
          returns false (level root 39) e,
          returns false (level q₁ 30) f,
          fails false (level q₂ 21) g,
        ))

    four_levels : Outcome
    four_levels = four (
        descent depth root root (index 39) (index 30) (index 21) ready0 ready0.tree.top
          (rw la57 (ground arith)) (index-lt 39) (index-lt 30) (index-lt 21))

  module _ (la57 : v.vmm_la57 ≡ true) where
    way5 :
        path_of (index 21 ∷ index 30 ∷ index 39 ∷ index 48 ∷ []) (index 12 ∷ [])
        ≡ path v.vmm_la57 virt
    way5 =
        rw
          (
            la57,
            table_index_lem virt 48,
            table_index_lem virt 39,
            table_index_lem virt 30,
            table_index_lem virt 21,
            table_index_lem virt 12,
          )
          refl

    module _ (q₀ : ℕ) (m : Machine) (l₀ : ℕ → Option Prefix)
        (a : Below m0 depth root label (index 48 ∷ []) q₀ m l₀)
        (d : level root 48 m0 ≡ ok (q₀ * page_size) m) where
      five :
          Descent depth root q₀
            (index 39)
            (index 30)
            (index 21)
            m
            l₀
            (index 21 ∷ index 30 ∷ index 39 ∷ index 48 ∷ [])
          → Outcome
      unfolding vmm_map_page interrupt_toggle acquire_pagemap release_pagemap store
      five (leads q₁ q₂ q₃ m₁ m₂ m₃ l e f g b) =
          let whole = Below-trans a b in
          let slot_is = at_slot m₃ q₃ l _ whole in
          maps m₃ q₃ l _ whole (rw la57 refl) way5 (
            rw (
              pm.unlocked,
              la57,
              pm.at_root,
              returns true (level root 48) d,
              returns true (level q₀ 39) e,
              returns true (level q₁ 30) f,
              returns true (level q₂ 21) g,
              slot_is,
            ))
      five (ends_first e) = no_memory (
          rw (
            pm.unlocked,
            la57,
            pm.at_root,
            returns true (level root 48) d,
            fails true (level q₀ 39) e,
          ))
      five (ends_second q₁ m₁ e f) = no_memory (
          rw (
            pm.unlocked,
            la57,
            pm.at_root,
            returns true (level root 48) d,
            returns true (level q₀ 39) e,
            fails true (level q₁ 30) f,
          ))
      five (ends_third q₁ q₂ m₁ m₂ e f g) = no_memory (
          rw (
            pm.unlocked,
            la57,
            pm.at_root,
            returns true (level root 48) d,
            returns true (level q₀ 39) e,
            returns true (level q₁ 30) f,
            fails true (level q₂ 21) g,
          ))

    from_top : Next m0 depth root label (index 48 ∷ []) (level root 48 m0) → Outcome
    unfolding vmm_map_page interrupt_toggle acquire_pagemap
    from_top (reaches q m l a d) = five q m l a d (
        descent depth root q (index 39) (index 30) (index 21) a.ready a.named
          (rw la57 (ground arith)) (index-lt 39) (index-lt 30) (index-lt 21))
    from_top (runs_out d) =
        no_memory (rw (pm.unlocked, la57, pm.at_root, fails true (level root 48) d))

    five_levels : Outcome
    five_levels =
        from_top (get_next_level-Next ready0 ready0.tree.top (rw la57 (ground arith)) (index-lt 48))

  -- On a pagemap whose tables form a tree and whose lock is free, with four or five levels,
  -- `vmm_map_page` either panics because memory has run out, or returns with such a pagemap again:
  -- the hardware walk along the indices of the virtual address ends in `phys | flags` if that
  -- entry is present and in a page fault otherwise, the walk along every other path of indices
  -- ends as before, and the lock, the interrupt flag, the direct map's offset and the memory map
  -- are as before.
  pub vmm_map_page-Mapped : Outcome
  vmm_map_page-Mapped = elim (Bool-cases v.vmm_la57) [
    | inl la57 ↦ five_levels la57
    | inr la57 ↦ four_levels la57
  ]
