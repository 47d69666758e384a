-- ===== src/Vmm/Grow.antt =====
-- A new table below an entry that was not present changes no translation.
use cynix.Base.{
  ℕ, ◌+◌, ◌*◌, ◌^◌, ◌<◌, ◌≡◌, ap, sym, ◌∙◌, ◌⊎◌, inl, inr, true, false, Option, none, some, List,
  [], ◌∷◌, if◌then◌else◌, length, arith, Bool-cases,
}
use cynix.Machine.{Machine, page_size}
use cynix.Vmm.Tables.{
  entry_of, is_present, page_of, walk, walk-nil, walk-leaf, walk-absent, walk-present, Prefix,
  IsTree, AreIndices,
}

-- Machine `m'` is `m` with an empty table in page `q` hung from entry `i` of the table in `cur`.
pub record Grown (m m' : Machine) (label : ℕ → Option Prefix) (cur i q : ℕ) : Type 0 where
  pub fresh : label q ≡ none
  pub narrow : q < 2 ^ 40
  pub absent : is_present (entry_of m cur i) ≡ false
  pub hung : entry_of m' cur i ≡ q * page_size + 7
  pub empty : (j : ℕ) → j < 512 → entry_of m' q j ≡ 0
  pub others :
      (page j : ℕ) (x : Prefix)
      → label page ≡ some x
      → j < 512
      → (page ≡ cur) × (j ≡ i) ⊎ (entry_of m' page j ≡ entry_of m page j)

module _ {m m' : Machine} {depth root : ℕ} {label : ℕ → Option Prefix} {cur i q : ℕ} {p : Prefix}
    (t : IsTree m depth root label) (at : label cur ≡ some p) (above : length p + 1 < depth)
    (index : i < 512) (g : Grown m m' label cur i q) where
  walk-empty : (j : ℕ) (is : List ℕ) → j < 512 → walk m' q (j ∷ is) ≡ none
  walk-empty j is lt = walk-absent m' q j is (ground (arith, g.empty j lt))

  at_cur : {page : ℕ} {x : Prefix} → page ≡ cur → label page ≡ some x → x ≡ p
  at_cur {page} {x} same e = cc (ap label same)

  -- Both walks through the new entry end in a page fault.
  walk-hung : (k : ℕ) (is : List ℕ) → k < 512 → walk m' cur (i ∷ k ∷ is) ≡ walk m cur (i ∷ k ∷ is)
  walk-hung k is lt =
      let on : is_present (entry_of m' cur i) ≡ true = rw g.hung (ground arith) in
      let to : page_of (entry_of m' cur i) ≡ q = rw g.hung (omega (arith, g.narrow)) in
      walk-present m' cur i k is on
      ∙ ap (λ (x : ℕ). walk m' x (k ∷ is)) to
      ∙ walk-empty k is lt
      ∙ sym (walk-absent m cur i (k ∷ is) g.absent)

  pub walk-Grown_from :
      (page : ℕ) (x : Prefix) (is : List ℕ)
      → label page ≡ some x
      → length x + length is ≡ depth
      → AreIndices is
      → walk m' page is ≡ walk m page is
  walk-Grown_from page x [] e d h = walk-nil m' page ∙ sym (walk-nil m page)
  walk-Grown_from page x (j ∷ []) e d h = elim (g.others page j x e h.0) [
    | inl (same, _) ↦ absurd (omega (arith, ap length (at_cur same e)))
    | inr keep ↦
        walk-leaf m' page j
        ∙ ap (λ (w : ℕ). if is_present w then some w else none) keep
        ∙ sym (walk-leaf m page j)
  ]
  walk-Grown_from page x (j ∷ k ∷ is) e d h = elim (g.others page j x e h.0) [
    | inl (same, ji) ↦ rw (same, ji) (walk-hung k is h.1.0)
    | inr keep ↦ elim (Bool-cases (is_present (entry_of m page j))) [
      | inl on ↦
          let room : length x + 1 < depth = omega arith in
          let child = (t.children page x j e room h.0 on).1 in
          walk-present m' page j k is (ap is_present keep ∙ on)
          ∙ ap (λ (w : ℕ). walk m' (page_of w) (k ∷ is)) keep
          ∙ walk-Grown_from (page_of (entry_of m page j)) (j ∷ x) (k ∷ is) child (omega arith) h.1
          ∙ sym (walk-present m page j k is on)
      | inr off ↦
          walk-absent m' page j (k ∷ is) (ap is_present keep ∙ off)
          ∙ sym (walk-absent m page j (k ∷ is) off)
    ]
  ]
