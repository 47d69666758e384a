-- ===== src/Vmm/Leaf.antt =====
-- Writing an entry of a last-level table changes the translation of its page alone.
use native.Mathlib.Decide.{ℕ_discrete}
use cynix.Base.{
  ℕ, suc, ◌+◌, ◌<◌, ◌≡◌, ap, sym, ◌∙◌, ◌≢◌, Option, none, some, List, [], ◌∷◌, if◌then◌else◌,
  length, arith, update, update_self, update_ne, Bool-cases, inl, inr,
}
use cynix.Machine.{Machine}
use cynix.Vmm.Tables.{
  slot, entry_of, is_present, page_of, walk, walk-nil, walk-leaf, walk-absent, walk-present,
  walk-path_of, Prefix, IsReady, Link, path_of, AreIndices,
}

-- The machine with entry `i` of the table in page `t` set to `value`.
abbrev pub written : Machine → (t i value : ℕ) → Machine
written m t i value = record m { word = update m.word (slot m t i) value }

module _ {m : Machine} {depth root : ℕ} {label : ℕ → Option Prefix} {t i : ℕ} {x : Prefix}
    (value : ℕ) (ready : IsReady m depth root label) (at : label t ≡ some x)
    (last : length x + 1 ≡ depth) (index : i < 512) where
  abbrev m' : Machine
  m' = written m t i value

  entry_ne : (page j : ℕ) → page ≢ t → j < 512 → entry_of m' page j ≡ entry_of m page j
  entry_ne page j ne lt = update_ne m.word value (λ e. ne (omega arith))

  upper : (page : ℕ) (p : Prefix) → label page ≡ some p → length p + 1 < depth → page ≢ t
  upper page p e lt same =
      let x_is : x ≡ p = cc (ap label same) in absurd (omega (arith, ap length x_is))

  written-Link : (page j : ℕ) (p : Prefix) → label page ≡ some (j ∷ p) → Link m' label page j p
  written-Link page j p e =
      let l = ready.tree.linked page j p e in
      let room : suc (length p) < depth = ready.tree.shallow page (j ∷ p) e in
      let same = entry_ne l.parent j (upper l.parent p l.named (omega arith)) l.index in
      record {
        parent = l.parent;
        named = l.named;
        index = l.index;
        present = ap is_present same ∙ l.present;
        points = ap page_of same ∙ l.points;
      }

  pub written-IsReady : IsReady m' depth root label
  written-IsReady = record {
    valid = record {
      bytes = ready.valid.bytes;
      unlocked = ready.valid.unlocked;
      small = ready.valid.small;
      mapped = ready.valid.mapped;
      last_in = ready.valid.last_in;
    };
    narrow = ready.narrow;
    tree = record {
      top = ready.tree.top;
      root_only = ready.tree.root_only;
      shallow = ready.tree.shallow;
      in_memory = ready.tree.in_memory;
      children = λ page p j e lt ji on.
          let same = entry_ne page j (upper page p e lt) ji in
          rw same (ready.tree.children page p j e lt ji (ap is_present (sym same) ∙ on));
      linked = written-Link;
    };
  }

  -- The hardware finds the new entry at the end of the table's path.
  pub walk-written :
      walk m' root (path_of x (i ∷ [])) ≡ (if is_present value then some value else none)
  walk-written =
      walk-path_of written-IsReady.tree x t i [] at
      ∙ walk-leaf m' t i
      ∙ ap (λ (w : ℕ). if is_present w then some w else none)
          (update_self m.word (slot m t i) value)

  other_leaf :
      (page j : ℕ) (y : Prefix)
      → label page ≡ some y
      → j < 512
      → ◌≢◌ {A = List ℕ} (path_of y (j ∷ [])) (path_of x (i ∷ []))
      → entry_of m' page j ≡ entry_of m page j
  other_leaf page j y e lt ne = elim (ℕ_discrete page t) [
    | no off ↦ entry_ne page j off lt
    | yes here ↦ elim (ℕ_discrete j i) [
      | no other ↦ update_ne m.word value (λ s. other (omega arith))
      | yes same ↦ let y_is : y ≡ x = cc (ap label here) in absurd (ne (cc (y_is, same)))
    ]
  ]

  walk-others_from :
      (page : ℕ) (y : Prefix) (is : List ℕ)
      → label page ≡ some y
      → length y + length is ≡ depth
      → AreIndices is
      → ◌≢◌ {A = List ℕ} (path_of y is) (path_of x (i ∷ []))
      → walk m' page is ≡ walk m page is
  walk-others_from page y [] e d h ne = walk-nil m' page ∙ sym (walk-nil m page)
  walk-others_from page y (j ∷ []) e d h ne =
      walk-leaf m' page j
      ∙ ap (λ (w : ℕ). if is_present w then some w else none) (other_leaf page j y e h.0 ne)
      ∙ sym (walk-leaf m page j)
  walk-others_from page y (j ∷ k ∷ is) e d h ne =
      let room : length y + 1 < depth = omega arith in
      let keep = entry_ne page j (upper page y e room) h.0 in
      elim (Bool-cases (is_present (entry_of m page j))) [
        | inl on ↦
            let child = (ready.tree.children page y j e room h.0 on).1 in
            walk-present m' page j k is (ap is_present keep ∙ on)
            ∙ ap (λ (w : ℕ). walk m' (page_of w) (k ∷ is)) keep
            ∙ walk-others_from (page_of (entry_of m page j)) (j ∷ y) (k ∷ is) child (omega arith)
                h.1 ne
            ∙ sym (walk-present m page j k is on)
        | inr off ↦
            walk-absent m' page j (k ∷ is) (ap is_present keep ∙ off)
            ∙ sym (walk-absent m page j (k ∷ is) off)
      ]

  -- Every other path leads where it led.
  pub walk-others :
      (is : List ℕ)
      → length is ≡ depth
      → AreIndices is
      → is ≢ path_of x (i ∷ [])
      → walk m' root is ≡ walk m root is
  walk-others is d h ne = walk-others_from root [] is ready.tree.top (omega arith) h ne
