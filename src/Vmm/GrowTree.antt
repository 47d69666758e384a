-- ===== src/Vmm/GrowTree.antt =====
-- A new table keeps the tree's shape.
use native.Mathlib.Decide.{ℕ_discrete}
use cynix.Base.{
  ℕ, ◌+◌, ◌*◌, ◌<◌, ◌≡◌, refl, ap, sym, ◌∙◌, ◌⊎◌, inl, inr, subst, true, Option, some, [], ◌∷◌,
  length, arith, update, update_self,
}
use cynix.Machine.{Machine, page_size}
use cynix.Misc.{bit_test}
use cynix.Vmm.Tables.{entry_of, is_present, page_of, Prefix, IsTree, Link}
use cynix.Vmm.Grow.{Grown}

module _ {m m' : Machine} {depth root : ℕ} {label : ℕ → Option Prefix} {cur i q : ℕ} {p : Prefix}
    (t : IsTree m depth root label) (at : label cur ≡ some p) (above : length p + 1 < depth)
    (index : i < 512) (g : Grown m m' label cur i q) (bounded : q < m'.pmm_avl_page_count)
    (used : bit_test m'.pmm_bitmap q ≡ true)
    (kept : (page : ℕ) (x : Prefix)
      → label page ≡ some x
      → (page < m'.pmm_avl_page_count) × (bit_test m'.pmm_bitmap page ≡ true)) where
  -- The labels with the new table.
  abbrev pub label' : ℕ → Option Prefix
  label' = update label q (some (i ∷ p))

  -- A label is the new table's, or an older one.
  which :
      (page : ℕ) (x : Prefix)
      → label' page ≡ some x
      → ((page ≡ q) × (x ≡ i ∷ p)) ⊎ (label page ≡ some x)
  which page x e = elim (ℕ_discrete q page) [
    | yes new ↦ inl (sym new, ground arith)
    | no old ↦ inr (ground arith)
  ]

  pub stays : (page : ℕ) (x : Prefix) → label page ≡ some x → label' page ≡ some x
  stays page x e = ground (arith, g.fresh)

  old_child :
      (page : ℕ) (x : Prefix) (j : ℕ)
      → label page ≡ some x
      → length x + 1 < depth
      → j < 512
      → is_present (entry_of m' page j) ≡ true
      → (entry_of m' page j ≡ page_of (entry_of m' page j) * page_size + 7)
        × (label' (page_of (entry_of m' page j)) ≡ some (j ∷ x))
  old_child page x j e lt ji on = elim (g.others page j x e ji) [
    | inl (here, same) ↦
        let word : entry_of m' page j ≡ q * page_size + 7 = rw (here, same) g.hung in
        let to : page_of (q * page_size + 7) ≡ q = omega (arith, g.narrow) in
        let x_is : x ≡ p = cc (ap label here) in
        let new : label' q ≡ some (j ∷ x) = rw (same, x_is) (update_self label q (some (i ∷ p))) in
        rw (word, to) (refl, new)
    | inr keep ↦
        let (word, next) = t.children page x j e lt ji (ap is_present (sym keep) ∙ on) in
        rw keep (word, stays _ (j ∷ x) next)
  ]

  new-Link :
      (page j : ℕ) (x : Prefix)
      → page ≡ q
      → ◌≡◌ {A = Prefix} (j ∷ x) (i ∷ p)
      → Link m' label' page j x
  new-Link page j x new same =
      let ji : j ≡ i = cc in
      let word : entry_of m' cur j ≡ q * page_size + 7 = rw ji g.hung in
      record {
        parent = cur;
        named = stays cur x (at ∙ cc);
        index = omega arith;
        present = rw word (ground arith);
        points = rw word (omega (arith, g.narrow));
      }

  old-Link : (page j : ℕ) (x : Prefix) → label page ≡ some (j ∷ x) → Link m' label' page j x
  old-Link page j x e =
      let l = t.linked page j x e in
      elim (g.others l.parent j x l.named l.index) [
        | inl (here, same) ↦
            absurd (ground (arith, l.present, g.absent, ap (λ (k : ℕ). entry_of m k j) here))
        | inr keep ↦ record {
          parent = l.parent;
          named = stays l.parent x l.named;
          index = l.index;
          present = ap is_present keep ∙ l.present;
          points = ap page_of keep ∙ l.points;
        }
      ]

  pub IsTree-Grown : IsTree m' depth root label'
  IsTree-Grown = record {
    top = stays root [] t.top;
    root_only = λ page e. elim (which page [] e) [
      | inl (_, no_nil) ↦ absurd (cc)
      | inr old ↦ t.root_only page old
    ];
    shallow = λ page x e. elim (which page x e) [
      | inl (_, new) ↦ omega (arith, ap length new)
      | inr old ↦ t.shallow page x old
    ];
    in_memory = λ page x e. elim (which page x e) [
      | inl (new, _) ↦
          subst (λ (k : ℕ). (k < m'.pmm_avl_page_count) × (bit_test m'.pmm_bitmap k ≡ true))
            (sym new) (bounded, used)
      | inr old ↦ kept page x old
    ];
    children = λ page x j e lt ji on. elim (which page x e) [
      | inl (new, _) ↦ absurd (ground (arith, g.empty j ji, ap (λ (k : ℕ). entry_of m' k j) new))
      | inr old ↦ old_child page x j old lt ji on
    ];
    linked = λ page j x e. elim (which page (j ∷ x) e) [
      | inl (new, same) ↦ new-Link page j x new same
      | inr old ↦ old-Link page j x old
    ];
  }
