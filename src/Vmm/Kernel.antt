-- ===== src/Vmm/Kernel.antt =====
-- What `vmm_init` comes to.
use cynix.Base.{
  ℕ, ◌+◌, ◌*◌, ◌^◌, ◌≤◌, ◌<◌, ◌≡◌, refl, sym, ap, subst, ◌∙◌, inl, inr, Bool, true, false, Option,
  none, some, List, [], ◌∷◌, length, ◌==◌, if◌then◌else◌, arith,
}
use cynix.Base.Outcome.{Outcome, returned, failed, Outcome-after, Outcome-then_at, Outcome-weaken}
use cynix.Base.Run.{Run, ok, out_of_memory, no_exec_address, zoom-ok, zoom-panics}
use cynix.Machine.{Machine, page_size}
use cynix.Pmm.{pmm_alloc}
use cynix.Pmm.Alloc.{IsValid, Allocated, allocated, out_of_pages}
use cynix.Pmm.Bits.{bit_test-set_bits}
use cynix.Pmm.RoundTrip.{blank, blank-zero, blank-IsValid, pmm_alloc-Allocated}
use cynix.Vmm.{Vmm, vmm_switch_pagemap}
use cynix.Vmm.Booted.{
  AreShort, Fails, Translates, with_segments, with_entries, segments_turn, entries_turn, share_turn,
}
use cynix.Vmm.Init.{Loader, uses_five, map_image, build_tables, vmm_init}
use cynix.Vmm.Map.{levels, IsPagemap}
use cynix.Vmm.Span.{Translation}
use cynix.Vmm.Tables.{entry_of, is_present, walk, walk-nil, walk-absent, Prefix, IsTree, AreIndices}

-- A single table, all of whose entries are 0
abbrev one_table : (root : ℕ) → ℕ → Option Prefix
one_table root page = if page == root then some [] else none

only_root : (root page : ℕ) (p : Prefix) → one_table root page ≡ some p → (page ≡ root) × (p ≡ [])
only_root root page p e = ground arith

module _ (m : Machine) (valid : IsValid m) (root : ℕ) (fits : root + 1 ≤ m.pmm_avl_page_count) where
  abbrev fresh : Machine
  fresh = blank m 1 root

  fresh-absent : (i : ℕ) → i < 512 → is_present (entry_of fresh root i) ≡ false
  fresh-absent i lt =
      let zero_entry : entry_of fresh root i ≡ 0 = blank-zero 1 valid root i fits (omega arith) in
      rw zero_entry refl

  fresh-IsTree : (depth : ℕ) → 0 < depth → IsTree fresh depth root (one_table root)
  fresh-IsTree depth deep = record {
    top = ground arith;
    root_only = λ page e. (only_root root page [] e).0;
    shallow = λ page p e. omega (arith, ap length (only_root root page p e).1);
    in_memory = λ page p e.
        let is = (only_root root page p e).0 in
        (omega arith, ground (arith, bit_test-set_bits m.pmm_bitmap root 1 page valid.bytes));
    children = λ page p i e above lt on. absurd (
        let is = (only_root root page p e).0 in
        let off =
          subst (λ q. is_present (entry_of fresh q i) ≡ false) (sym is) (fresh-absent i lt) in
        cc);
    linked = λ page i p e. absurd (let nil = (only_root root page (i ∷ p) e).1 in cc);
  }

  fresh-walk : (is : List ℕ) → AreIndices is → walk fresh root is ≡ none
  fresh-walk [] ok' = walk-nil fresh root
  fresh-walk (i ∷ is) (lt, ok') = walk-absent fresh root i is (fresh-absent i lt)

levels_pos : (la57 : Bool) → 0 < levels la57
levels_pos true = omega arith
levels_pos false = omega arith

-- The kernel's page tables are in use: they translate as the program headers and then the entries of
-- the memory map ask for, over nothing.
pub record IsKernelMap (boot : Loader) (v v' : Vmm) : Type 0 where
  pub root : ℕ
  pub label : ℕ → Option Prefix
  pub pagemap : IsPagemap v' root label
  pub in_use : v'.cr3 ≡ root * page_size
  pub levels_chosen : v'.vmm_la57 ≡ (if uses_five boot.five_levels then true else v.vmm_la57)
  pub physical_base : ℕ
  pub virtual_base : ℕ
  pub image : boot.executable_address ≡ some (physical_base, virtual_base)
  pub walks :
      (is : List ℕ)
      → length is ≡ levels v'.vmm_la57
      → AreIndices is
      → walk v'.machine root is
        ≡ with_entries v'.vmm_la57 v.machine.hhdm v.machine.memmap
            (with_segments v'.vmm_la57 physical_base virtual_base boot.program_headers (λ _. none))
            is

module _ (boot : Loader) (v : Vmm) (valid : IsValid v.machine)
    (narrow : v.machine.pmm_avl_page_count ≤ 2 ^ 40) (free : v.spinlock ≡ false)
    (short : AreShort boot.program_headers) where
  abbrev la57 : Bool
  la57 = if uses_five boot.five_levels then true else v.vmm_la57

  -- The pagemap with its empty top level in page `root`
  abbrev begun : ℕ → Vmm
  begun root = record v {
    vmm_la57 = la57;
    machine = blank v.machine 1 root;
    top_level = root * page_size;
  }

  begun-Translates :
      (root : ℕ)
      → root + 1 ≤ v.machine.pmm_avl_page_count
      → Translates (begun root) root (λ _. none) (blank v.machine 1 root)
  begun-Translates root fits = record {
    label = one_table root;
    pagemap = record {
      ready = record {
        valid = blank-IsValid 1 valid root fits;
        narrow = narrow;
        tree = fresh-IsTree v.machine valid root fits (levels la57) (levels_pos la57);
      };
      at_root = refl;
      unlocked = free;
    };
    boot = record { same_hhdm = refl; same_memmap = refl };
    walks = λ is len ok'. fresh-walk v.machine valid root fits is ok';
  }

  abbrev Goal : Run Vmm (Unit {0}) → Type 0
  Goal = Outcome Fails (λ _ v'. IsKernelMap boot v v')

  abbrev chosen : Vmm
  chosen = record v { vmm_la57 = la57 }

  abbrev unmapped : Translation
  unmapped is = none

  image_turn :
      (address : Option (ℕ × ℕ)) (root : ℕ) (m : Machine)
      → boot.executable_address ≡ address
      → Translates (begun root) root unmapped m
      → Outcome Fails
          (λ _ v'.
            (x : Machine × ℕ × ℕ) × (v' ≡ record (begun root) { machine = x.0 })
            × ((boot.executable_address ≡ some (x.1, x.2))
                × Translates
                    (begun root)
                    root
                    (with_segments la57 x.1 x.2 boot.program_headers unmapped)
                    x.0))
          (map_image address boot.program_headers (record (begun root) { machine = m }))
  unfolding map_image
  image_turn none root m e t = failed no_exec_address (inr (inr refl)) refl
  image_turn (some (physical_base, virtual_base)) root m e t =
      Outcome-weaken (λ reason f. f)
        (λ _ v' (m', e', t'). ((m', physical_base, virtual_base), e', (e, t')))
        (segments_turn (begun root) root physical_base virtual_base boot.program_headers unmapped m
          short t)

  tables_from :
      (root : ℕ)
      → root + 1 ≤ v.machine.pmm_avl_page_count
      → pmm_alloc 1 v.machine ≡ ok (root * page_size) (blank v.machine 1 root)
      → Goal (build_tables boot chosen)
  unfolding build_tables vmm_switch_pagemap
  tables_from root fits e =
      Outcome-after _
        (zoom-ok (λ (v : Vmm). v.machine) (λ m v. record v { machine = m }) (pmm_alloc 1)
          {s = chosen} e)
        (Outcome-then_at _
          (share_turn (begun root) root 256 256 unmapped (blank v.machine 1 root) (omega arith)
            (begun-Translates root fits))
          λ _ m₁ shared.
            Outcome-then_at _ (image_turn boot.executable_address root m₁ refl shared)
              λ _ x (image, mapped).
                Outcome-then_at _ (entries_turn (begun root) root x.0.memmap _ x.0 mapped) λ _ m₂ t.
                  returned tt (record (begun root) { machine = m₂; cr3 = root * page_size }) refl
                    (record {
                      root = root;
                      label = t.label;
                      pagemap = record { ready = t.pagemap.ready; at_root = refl; unlocked = free };
                      in_use = refl;
                      levels_chosen = refl;
                      physical_base = x.1;
                      virtual_base = x.2;
                      image = image;
                      walks = λ is len ok'.
                          t.walks is len ok'
                          ∙ ap
                              (λ entries.
                                with_entries la57 v.machine.hhdm entries
                                  (with_segments la57 x.1 x.2 boot.program_headers unmapped) is)
                              mapped.boot.same_memmap;
                    }))

  tables_built : Goal (build_tables boot chosen)
  unfolding build_tables
  tables_built = go (pmm_alloc-Allocated 1 valid (omega arith)).0
    where
      go :
          Allocated v.machine 1 (blank v.machine 1) (pmm_alloc 1 v.machine)
          → Goal (build_tables boot chosen)
      go (allocated page _ fits _ _ e _) = tables_from page fits e
      go (out_of_pages _ _ e) = failed out_of_memory (inl refl) (
          rw
            (zoom-panics (λ (v : Vmm). v.machine) (λ m v. record v { machine = m }) (pmm_alloc 1)
              {s = chosen} e)
            refl)

  la57_chosen :
      (b : Bool)
      → record v { vmm_la57 = if b then true else v.vmm_la57 }
        ≡ (if b then record v { vmm_la57 = true } else v)
  la57_chosen true = refl
  la57_chosen false = refl

  -- On a valid page allocator with at most 2 ^ 40 pages, a free lock and no program header of 2 ^
  -- 63 - 4095 bytes or more, `vmm_init` either panics, as memory has run out, a table of the
  -- higher half has the address 0 or the bootloader does not say where the kernel lies, or returns
  -- with a pagemap in use whose tables form a tree, with five levels where the bootloader says so:
  -- along every path of indices it translates as nothing but the loadable program headers, one
  -- after the other, and then the direct map of the entries of the memory map ask for. The pages
  -- of a header may be executed exactly with PF_X and written exactly with PF_W; the direct map
  -- has the usable, reclaimable, kernel and framebuffer entries, to be written and not executed,
  -- with write combining for the framebuffer.
  pub vmm_init-IsKernelMap : Outcome Fails (λ _ v'. IsKernelMap boot v v') (vmm_init boot v)
  unfolding vmm_init
  vmm_init-IsKernelMap =
      subst (λ v. Goal (build_tables boot v)) (la57_chosen (uses_five boot.five_levels))
        tables_built
