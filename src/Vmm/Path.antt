-- ===== src/Vmm/Path.antt =====
-- The indices of a virtual address, and walks under a changed interrupt flag.
use native.Mathlib.Nat.{mul-div_left, one-le-pow}
use cynix.Base.{
  bit_and, ℕ, ◌/◌, ◌%◌, ◌^◌, ◌≡◌, ap, sym, ◌∙◌, Bool, true, false, Option, List, [], ◌∷◌, arith,
  Bool-cases, inl, inr,
}
use cynix.Base.Bits.{bit_and_ones, bit_and_high}
use cynix.Machine.{Machine}
use cynix.Vmm.{table_index}
use cynix.Vmm.Tables.{
  entry_of, is_present, page_of, walk, walk-nil, walk-leaf, walk-absent, walk-present, Prefix,
  IsReady,
}

pub table_index_lem : (virt shift : ℕ) → table_index virt shift ≡ virt / 2 ^ shift % 512
unfolding table_index
table_index_lem virt shift =
    ap (λ (t : ℕ). t / 2 ^ shift) (bit_and_high shift virt 511)
    ∙ mul-div_left (bit_and (virt / 2 ^ shift) 511) (one-le-pow shift 2 (omega arith))
    ∙ bit_and_ones 9 (virt / 2 ^ shift)

-- The indices that the hardware takes from a virtual address, with five levels or four.
abbrev pub path : (la57 : Bool) → (virt : ℕ) → List ℕ
path true virt =
    virt / 2 ^ 48 % 512
    ∷ virt / 2 ^ 39 % 512
    ∷ virt / 2 ^ 30 % 512
    ∷ virt / 2 ^ 21 % 512
    ∷ virt / 2 ^ 12 % 512
    ∷ []
path false virt =
    virt / 2 ^ 39 % 512 ∷ virt / 2 ^ 30 % 512 ∷ virt / 2 ^ 21 % 512 ∷ virt / 2 ^ 12 % 512 ∷ []

abbrev pub flagged : Machine → Bool → Machine
flagged m flag = record m { interrupts = flag }

pub walk-flagged :
    (m : Machine) (flag : Bool) (page : ℕ) (is : List ℕ)
    → walk (flagged m flag) page is ≡ walk m page is
walk-flagged m flag page [] = walk-nil (flagged m flag) page ∙ sym (walk-nil m page)
walk-flagged m flag page (i ∷ []) = walk-leaf (flagged m flag) page i ∙ sym (walk-leaf m page i)
walk-flagged m flag page (i ∷ j ∷ is) = elim (Bool-cases (is_present (entry_of m page i))) [
  | inl on ↦
      walk-present (flagged m flag) page i j is on
      ∙ walk-flagged m flag (page_of (entry_of m page i)) (j ∷ is)
      ∙ sym (walk-present m page i j is on)
  | inr off ↦
      walk-absent (flagged m flag) page i (j ∷ is) off ∙ sym (walk-absent m page i (j ∷ is) off)
]

pub flagged-IsReady :
    {m : Machine} {depth root : ℕ} {label : ℕ → Option Prefix}
    → (flag : Bool) → IsReady m depth root label
    → IsReady (flagged m flag) depth root label
flagged-IsReady flag r = record {
  valid = record {
    bytes = r.valid.bytes;
    unlocked = r.valid.unlocked;
    small = r.valid.small;
    mapped = r.valid.mapped;
    last_in = r.valid.last_in;
  };
  narrow = r.narrow;
  tree = record {
    top = r.tree.top;
    root_only = r.tree.root_only;
    shallow = r.tree.shallow;
    in_memory = r.tree.in_memory;
    children = r.tree.children;
    linked = λ page j p e.
        let l = r.tree.linked page j p e in
        record {
          parent = l.parent;
          named = l.named;
          index = l.index;
          present = l.present;
          points = l.points;
        };
  };
}
