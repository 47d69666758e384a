-- ===== src/Slab/Entries.antt =====
-- Entries of blocks, and that two of them never overlap.
use native.Mathlib.Nat.{mul-le-mul_left}
use native.Mathlib.Decide.{dec_lt}
use cynix.Base.{ℕ, ◌+◌, ◌*◌, ◌≤◌, ◌<◌, ◌≡◌, ◌≢◌, sym, ap, ◌∙◌, ◌⊎◌, inl, inr, Option, some, arith}
use cynix.Slab.Classes.{class_size, class_count, class}
use cynix.Slab.Create.{block_size}

-- The slab of each block that a slab has, by the block's number: its address over 2 ^ 18
abbrev pub Blocks : Type 0
Blocks = ℕ → Option ℕ

-- `a` is where an entry of slab `i` starts; place 0 of a block is its header.
pub record IsEntry (blocks : Blocks) (i a : ℕ) : Type 0 where
  pub block : ℕ
  pub place : ℕ
  pub owner : blocks block ≡ some i
  pub at : a ≡ block * block_size + class_size i * place
  pub first : 1 ≤ place
  pub last : place < class_count i

one_value : {o : Option ℕ} {i j : ℕ} → o ≡ some i → o ≡ some j → i ≡ j
one_value e f = cc

module _ {blocks : Blocks} {i a : ℕ} (lt : i < 12) (e : IsEntry blocks i a) where
  pub entry_above : e.block * block_size + class_size i ≤ a
  entry_above = omega (arith, e.at, e.first, mul-le-mul_left (class_size i) e.first)

  pub entry_below : a + class_size i ≤ e.block * block_size + block_size
  entry_below =
      let room : e.place + 1 ≤ class_count i = omega (arith, e.last) in
      omega (arith, e.at, (class 0 i lt).block, mul-le-mul_left (class_size i) room)

module _ {blocks : Blocks} {i j a b : ℕ} (i_lt : i < 12) (j_lt : j < 12) (e : IsEntry blocks i a)
    (f : IsEntry blocks j b) where
  same_block : a ≡ b → e.block ≡ f.block
  same_block h = omega (
    arith,
    entry_above i_lt e,
    entry_below i_lt e,
    entry_above j_lt f,
    entry_below j_lt f,
    (class 0 i i_lt).some_bytes,
    (class 0 j j_lt).some_bytes,
  )

  pub entry_slab : a ≡ b → i ≡ j
  entry_slab h = one_value (e.owner) (ap blocks (same_block h) ∙ f.owner)

  same_slab : e.block ≡ f.block → i ≡ j
  same_slab h = one_value (e.owner) (ap blocks h ∙ f.owner)

  pub entries_apart : a ≢ b → (a + class_size i ≤ b) ⊎ (b + class_size j ≤ a)
  entries_apart ne = elim (dec_lt e.block f.block) [
    | yes before ↦ inl (omega (arith, entry_below i_lt e, entry_above j_lt f))
    | no not_before ↦ elim (dec_lt f.block e.block) [
      | yes after ↦ inr (omega (arith, entry_below j_lt f, entry_above i_lt e))
      | no not_after ↦ within (omega arith)
    ]
  ]
    where
      next : {x y : ℕ} → x < y → x + 1 ≤ y
      next h = omega arith

      equal : (¬ (e.place < f.place)) → (¬ (f.place < e.place)) → e.place ≡ f.place
      equal h k = omega arith

      within : e.block ≡ f.block → (a + class_size i ≤ b) ⊎ (b + class_size j ≤ a)
      within h =
          let size : class_size j ≡ class_size i = ap class_size (sym (same_slab h)) in
          elim (dec_lt e.place f.place) [
            | yes before ↦ inl (
                omega (
                  arith,
                  e.at,
                  f.at,
                  ap (λ z. z * f.place) size,
                  mul-le-mul_left (class_size i) (next before),
                ))
            | no not_before ↦ elim (dec_lt f.place e.place) [
              | yes after ↦ inr (
                  omega (
                    arith,
                    e.at,
                    f.at,
                    ap (λ z. z * f.place) size,
                    mul-le-mul_left (class_size i) (next after),
                  ))
              | no not_after ↦ absurd (
                  ne (
                    omega (
                      arith,
                      e.at,
                      f.at,
                      ap (λ z. z * f.place) size,
                      ap (λ p. class_size i * p) (equal not_before not_after),
                    )))
            ]
          ]
