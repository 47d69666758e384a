-- ===== src/Vmm/Tables.antt =====
-- What the hardware sees in the page tables, and the shape that the kernel keeps them in.
use cynix.Base.{
  ℕ, ◌+◌, ◌*◌, ◌/◌, ◌%◌, ◌^◌, ◌≤◌, ◌<◌, ◌≡◌, refl, ap, sym, ◌∙◌, Bool, true, false, Option, none,
  some, List, [], ◌∷◌, ◌==◌, if◌then◌else◌, length, arith,
}
use cynix.Machine.{Machine, page_size}
use cynix.Misc.{bit_test}
use cynix.Pmm.Alloc.{IsValid}

-- The virtual address of entry `i` of the table in physical page `page`.
abbrev pub slot : Machine → (page i : ℕ) → ℕ
slot m page i = page * page_size + m.hhdm + 8 * i

abbrev pub entry_of : Machine → (page i : ℕ) → ℕ
entry_of m page i = m.word (slot m page i)

-- Bit 0 of an entry, and the physical page in its bits 12 to 51.
abbrev pub is_present : ℕ → Bool
is_present entry = entry % 2 == 1

abbrev pub page_of : ℕ → ℕ
page_of entry = entry / page_size % 2 ^ 40

-- What the bootloader has said is as before.
pub record SameBoot (m m' : Machine) : Type 0 where
  pub same_hhdm : m'.hhdm ≡ m.hhdm
  pub same_memmap : m'.memmap ≡ m.memmap

pub SameBoot-trans : {m m' m'' : Machine} → SameBoot m m' → SameBoot m' m'' → SameBoot m m''
SameBoot-trans a b = record {
  same_hhdm = b.same_hhdm ∙ a.same_hhdm;
  same_memmap = b.same_memmap ∙ a.same_memmap;
}

-- The walk of the hardware from the table in page `page` along the indices of an address, down to
-- the entry that maps it; `none` is a page fault.
pub walk : Machine → (page : ℕ) → List ℕ → Option ℕ
walk m page [] = none
walk m page (i ∷ []) = if is_present (entry_of m page i) then some (entry_of m page i) else none
walk m page (i ∷ j ∷ is) =
    let next = walk m (page_of (entry_of m page i)) (j ∷ is) in
    if is_present (entry_of m page i) then next else none

pub walk-nil : (m : Machine) (page : ℕ) → walk m page [] ≡ none
unfolding walk
walk-nil m page = refl

module _ (m : Machine) (page i : ℕ) where
  pub walk-leaf :
      walk m page (i ∷ [])
      ≡ (if is_present (entry_of m page i) then some (entry_of m page i) else none)
  unfolding walk
  walk-leaf = refl

  pub walk-absent :
      (is : List ℕ) → is_present (entry_of m page i) ≡ false → walk m page (i ∷ is) ≡ none
  unfolding walk
  walk-absent [] e = rw e
  walk-absent (j ∷ is) e = rw e

  pub walk-present :
      (j : ℕ) (is : List ℕ)
      → is_present (entry_of m page i) ≡ true
      → walk m page (i ∷ j ∷ is) ≡ walk m (page_of (entry_of m page i)) (j ∷ is)
  unfolding walk
  walk-present j is e = rw e

-- The indices that lead from the top level to a table, the last one first.
abbrev pub Prefix : Type 0
Prefix = List ℕ

pub record Link (m : Machine) (label : ℕ → Option Prefix) (page i : ℕ) (p : Prefix) : Type 0 where
  pub parent : ℕ
  pub named : label parent ≡ some p
  pub index : i < 512
  pub present : is_present (entry_of m parent i) ≡ true
  pub points : page_of (entry_of m parent i) ≡ page

-- `label` says which pages are tables and where they hang. The tables form a tree of `depth` levels
-- under the page `root`, each in a page that is in use.
pub record IsTree (m : Machine) (depth root : ℕ) (label : ℕ → Option Prefix) : Type 0 where
  pub top : label root ≡ some []
  pub root_only : (page : ℕ) → label page ≡ some [] → page ≡ root
  pub shallow : (page : ℕ) (p : Prefix) → label page ≡ some p → length p < depth
  pub in_memory :
      (page : ℕ) (p : Prefix)
      → label page ≡ some p
      → (page < m.pmm_avl_page_count) × (bit_test m.pmm_bitmap page ≡ true)
  -- An entry above the last level is either not present or `page * 4096 | 0b111` of a child.
  pub children :
      (page : ℕ) (p : Prefix) (i : ℕ)
      → label page ≡ some p
      → length p + 1 < depth
      → i < 512
      → is_present (entry_of m page i) ≡ true
      → (entry_of m page i ≡ page_of (entry_of m page i) * page_size + 7)
        × (label (page_of (entry_of m page i)) ≡ some (i ∷ p))
  -- A table below the root hangs from the entry that its label names.
  pub linked : (page i : ℕ) (p : Prefix) → label page ≡ some (i ∷ p) → Link m label page i p

-- Pages are below 2 ^ 40, so that an entry holds them.
pub record IsReady (m : Machine) (depth root : ℕ) (label : ℕ → Option Prefix) : Type 0 where
  pub valid : IsValid m
  pub narrow : m.pmm_avl_page_count ≤ 2 ^ 40
  pub tree : IsTree m depth root label

-- The indices of a path whose tables above hang along the prefix `p`.
abbrev pub path_of : Prefix → List ℕ → List ℕ
path_of [] is = is
path_of (i ∷ p) is = path_of p (i ∷ is)

-- Every index is one of a table's.
abbrev pub AreIndices : List ℕ → Type 0
AreIndices [] = Unit {0}
AreIndices (i ∷ is) = (i < 512) × AreIndices is

-- The walk from the root passes through every table on its path.
pub walk-path_of :
    {m : Machine} {depth root : ℕ} {label : ℕ → Option Prefix}
    → IsTree m depth root label
    → (p : Prefix) (page i : ℕ) (is : List ℕ) → label page ≡ some p
    → walk m root (path_of p (i ∷ is)) ≡ walk m page (i ∷ is)
unfolding walk
walk-path_of {m} t [] page i is e = ap (λ (x : ℕ). walk m x (i ∷ is)) (sym (t.root_only page e))
walk-path_of {m} t (j ∷ p) page i is e =
    let l = t.linked page j p e in
    walk-path_of t p l.parent j (i ∷ is) l.named ∙ ground (arith, l.present, l.points)
