-- ===== src/Vmm/Level.antt =====
-- `get_next_level`: the table below an entry, allocated if there is none.
use native.Mathlib.Decide.{ℕ_discrete}
use cynix.Base.{
  ℕ, ◌+◌, ◌-◌, ◌*◌, ◌/◌, ◌%◌, ◌^◌, ◌≤◌, ◌<◌, ◌≡◌, refl, ap, ◌∙◌, ◌≢◌, inl, inr, true, false, Option,
  none, some, List, [], ◌∷◌, ◌==◌, length, arith, update, update_self, update_ne, Bool-cases,
  Option-cases, bit_and, bit_or,
}
use cynix.Base.Bits.{bit_and_ones, bit_and_high, bit_or_low}
use cynix.Base.Run.{Run, ok, panics, out_of_memory}
use cynix.Machine.{Machine, page_size}
use cynix.Misc.{bit_test}
use cynix.Pmm.{pmm_alloc}
use cynix.Pmm.Alloc.{IsValid, taken, Allocated, allocated, out_of_pages}
use cynix.Pmm.Free.{bit_test-taken}
use cynix.Pmm.RoundTrip.{blank, blank-zero, blank-others, pmm_alloc-Allocated, blank-IsValid}
use cynix.Vmm.{pte_flags_mask, entry_address, new_level, get_next_level}
use cynix.Vmm.Tables.{
  slot, entry_of, is_present, page_of, walk, Prefix, IsReady, AreIndices, SameBoot,
}
use cynix.Vmm.Grow.{Grown, walk-Grown_from}
use cynix.Vmm.GrowTree.{label', stays, IsTree-Grown}

-- The bit operations of the code on the entries of a tree.
present_bit : (e : ℕ) → bit_and e 1 ≡ e % 2
present_bit e = bit_and_ones 1 e

child_address :
    (q : ℕ) → q < 2 ^ 40 → bit_and (q * page_size + 7) (2 ^ 64 - 1 - pte_flags_mask) ≡ q * page_size
child_address q lt = omega (
  arith,
  bit_and_high 12 (q * page_size + 7) (2 ^ 51 - 1),
  bit_and_ones 51 ((q * page_size + 7) / 2 ^ 12),
)

new_entry : (q : ℕ) → bit_or (q * page_size) 7 ≡ q * page_size + 7
new_entry q = bit_or_low 12 q 7 (omega arith)

pub entry_address-slot :
    (m : Machine) (page i : ℕ)
    → IsValid m
    → page < m.pmm_avl_page_count
    → i < 512
    → entry_address (page * page_size) i m ≡ slot m page i
unfolding entry_address
entry_address-slot m page i v lt index = omega (arith, v.mapped)

-- The machine once page `q` became a table below entry `i` of the table in `cur`.
abbrev pub extended : Machine → (cur i q : ℕ) → Machine
extended m cur i q = record (blank m 1 q) {
  word = update (blank m 1 q).word (slot m cur i) (q * page_size + 7);
}

module _ (m : Machine) (cur i : ℕ)
    (at_slot : entry_address (cur * page_size) i m ≡ slot m cur i) where
  level-present :
      is_present (entry_of m cur i) ≡ true
      → get_next_level (cur * page_size) i true m
        ≡ ok (bit_and (entry_of m cur i) (2 ^ 64 - 1 - pte_flags_mask)) m
  unfolding get_next_level
  level-present on =
      let test : (bit_and (entry_of m cur i) 1 == 0) ≡ false =
        ground (arith, present_bit (entry_of m cur i)) in
      rw (at_slot, test)

  module _ (off : is_present (entry_of m cur i) ≡ false) where
    level-absent : get_next_level (cur * page_size) i true m ≡ new_level (slot m cur i) true m
    unfolding get_next_level
    level-absent =
        let test : (bit_and (entry_of m cur i) 1 == 0) ≡ true =
          ground (arith, present_bit (entry_of m cur i)) in
        rw (at_slot, test)

    level-made :
        (q : ℕ)
        → pmm_alloc 1 m ≡ ok (q * page_size) (blank m 1 q)
        → get_next_level (cur * page_size) i true m ≡ ok (q * page_size) (extended m cur i q)
    level-made q e = level-absent ∙ unfold new_level in rw (e, new_entry q)

    level-panics :
        pmm_alloc 1 m ≡ panics out_of_memory
        → get_next_level (cur * page_size) i true m ≡ panics out_of_memory
    level-panics e = level-absent ∙ unfold new_level in rw e

-- From a tree of tables `get_next_level` leads to the table of prefix `x` in page `q`; what it adds
-- to the tree changes no translation.
pub record Below (m : Machine) (depth root : ℕ) (label : ℕ → Option Prefix) (x : Prefix) (q : ℕ)
    (m' : Machine) (label' : ℕ → Option Prefix) : Type 0 where
  pub ready : IsReady m' depth root label'
  pub named : label' q ≡ some x
  pub kept : (page : ℕ) (y : Prefix) → label page ≡ some y → label' page ≡ some y
  pub same : (is : List ℕ) → length is ≡ depth → AreIndices is → walk m' root is ≡ walk m root is
  pub flag : m'.interrupts ≡ m.interrupts
  pub boot : SameBoot m m'

pub data Next (m : Machine) (depth root : ℕ) (label : ℕ → Option Prefix) (x : Prefix)
    (r : Run Machine ℕ) : Type 0 where
  reaches :
      (q : ℕ) (m' : Machine) (label' : ℕ → Option Prefix)
      → Below m depth root label x q m' label'
      → r ≡ ok (q * page_size) m'
      → Next m depth root label x r
  runs_out : r ≡ panics out_of_memory → Next m depth root label x r

module _ {m : Machine} {depth root : ℕ} {label : ℕ → Option Prefix} {cur i : ℕ} {p : Prefix}
    (ready : IsReady m depth root label) (at : label cur ≡ some p) (above : length p + 1 < depth)
    (index : i < 512) where
  at_slot : entry_address (cur * page_size) i m ≡ slot m cur i
  at_slot = entry_address-slot m cur i ready.valid (ready.tree.in_memory cur p at).0 index

  -- The page below a present entry is the child's.
  Next-present :
      is_present (entry_of m cur i) ≡ true
      → Next m depth root label (i ∷ p) (get_next_level (cur * page_size) i true m)
  Next-present on =
      let (word, child) = ready.tree.children cur p i at above index on in
      let q = page_of (entry_of m cur i) in
      let small : q < 2 ^ 40 = omega arith in
      reaches q m label
        (record {
          ready = ready;
          named = child;
          kept = λ page y e. e;
          same = λ is d h. refl;
          flag = refl;
          boot = record { same_hhdm = refl; same_memmap = refl };
        })
        (level-present m cur i at_slot on
          ∙ ap (λ (w : ℕ). ok w m)
              (ap (λ (w : ℕ). bit_and w (2 ^ 64 - 1 - pte_flags_mask)) word
                ∙ child_address q small))

  module _ (q : ℕ) (fits : q + 1 ≤ m.pmm_avl_page_count)
      (free : bit_test m.pmm_bitmap q ≡ false) where
    fresh : label q ≡ none
    fresh = elim (Option-cases (label q)) [
      | inl e ↦ e
      | inr (x, e) ↦ absurd (ground (arith, (ready.tree.in_memory q x e).1))
    ]

    -- A labelled page is another page than the new one.
    other_page : (page : ℕ) (x : Prefix) → label page ≡ some x → page ≢ q
    other_page page x e same = absurd (cc (ap label same, fresh))

    old_slot :
        (page j : ℕ) → page ≢ q → j < 512 → (blank m 1 q).word (slot m page j) ≡ entry_of m page j
    old_slot page j ne lt =
        blank-others 1 ready.valid q (slot m page j) fits (λ k k_lt e. ne (omega arith))

    extended-Grown :
        is_present (entry_of m cur i) ≡ false → Grown m (extended m cur i q) label cur i q
    extended-Grown off = record {
      fresh = fresh;
      narrow = omega (arith, ready.narrow);
      absent = off;
      hung = update_self (blank m 1 q).word (slot m cur i) (q * page_size + 7);
      empty = λ j lt.
          let ne : cur ≢ q = other_page cur p at in
          let apart : slot m cur i ≢ slot m q j = λ e. ne (omega arith) in
          update_ne (blank m 1 q).word (q * page_size + 7) apart
          ∙ blank-zero 1 ready.valid q j fits lt;
      others = λ page j x e lt. elim (ℕ_discrete page cur) [
        | yes here ↦ elim (ℕ_discrete j i) [
          | yes ji ↦ inl (here, ji)
          | no ne ↦
              let apart : slot m cur i ≢ slot m page j = λ s. ne (omega arith) in
              inr (
                update_ne (blank m 1 q).word (q * page_size + 7) apart
                ∙ old_slot page j (other_page page x e) lt)
        ]
        | no ne ↦
            let apart : slot m cur i ≢ slot m page j = λ s. ne (omega arith) in
            inr (
              update_ne (blank m 1 q).word (q * page_size + 7) apart
              ∙ old_slot page j (other_page page x e) lt)
      ];
    }

    used :
        (page : ℕ)
        → bit_test m.pmm_bitmap page ≡ true
        → bit_test (taken m 1 q).pmm_bitmap page ≡ true
    used page u = ground (arith, bit_test-taken m 1 q ready.valid page)

    Next-made :
        is_present (entry_of m cur i) ≡ false
        → pmm_alloc 1 m ≡ ok (q * page_size) (blank m 1 q)
        → Next m depth root label (i ∷ p) (get_next_level (cur * page_size) i true m)
    Next-made off e =
        let g = extended-Grown off in
        let inside : q < m.pmm_avl_page_count = omega arith in
        let mine : bit_test (taken m 1 q).pmm_bitmap q ≡ true =
          ground (arith, bit_test-taken m 1 q ready.valid q) in
        let kept : (page : ℕ) (x : Prefix)
            → label page ≡ some x
            → (page < m.pmm_avl_page_count) × (bit_test (taken m 1 q).pmm_bitmap page ≡ true) =
          λ page x l.
            ((ready.tree.in_memory page x l).0, used page (ready.tree.in_memory page x l).1) in
        reaches q (extended m cur i q) (label' ready.tree at above index g inside mine kept)
          (record {
            ready = record {
              valid = record {
                bytes = (blank-IsValid 1 ready.valid q fits).bytes;
                unlocked = refl;
                small = ready.valid.small;
                mapped = ready.valid.mapped;
                last_in = fits;
              };
              narrow = ready.narrow;
              tree = IsTree-Grown ready.tree at above index g inside mine kept;
            };
            named = update_self label q (some (i ∷ p));
            kept = stays ready.tree at above index g inside mine kept;
            same = λ is d h.
                walk-Grown_from ready.tree at above index g root [] is ready.tree.top (omega arith)
                  h;
            flag = refl;
            boot = record { same_hhdm = refl; same_memmap = refl };
          })
          (level-made m cur i at_slot off q e)

  -- Total: a table is found or made, or memory has run out.
  pub get_next_level-Next :
      Next m depth root label (i ∷ p) (get_next_level (cur * page_size) i true m)
  get_next_level-Next = elim (Bool-cases (is_present (entry_of m cur i))) [
    | inl on ↦ Next-present on
    | inr off ↦ go off (pmm_alloc-Allocated 1 ready.valid (omega arith)).0
  ]
    where
      go :
          is_present (entry_of m cur i) ≡ false
          → Allocated m 1 (blank m 1) (pmm_alloc 1 m)
          → Next m depth root label (i ∷ p) (get_next_level (cur * page_size) i true m)
      go off (allocated q _ fits free _ e _) =
          Next-made q fits (free q (omega arith) (omega arith)) off e
      go off (out_of_pages _ _ e) = runs_out (level-panics m cur i at_slot off e)
