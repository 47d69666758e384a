-- ===== src/Vmm/Span.antt =====
-- Loops over `vmm_map_page`: the translation that a span leaves.
use cynix.Base.{
  ℕ, zero, suc, ◌+◌, ◌-◌, ◌*◌, ◌/◌, ◌≤◌, ◌<◌, ◌≡◌, refl, sym, ap, ◌∙◌, ◌≢◌, inl, inr, Bool, true,
  false, Bool-cases, ◌&&◌, ◌==◌, if◌then◌else◌, Option, some, none, List, [], ◌∷◌, length, add64,
  sub64, bit_or, word_mod, arith,
}
use cynix.Base.Run.{Run, ok, panics, out_of_memory}
use cynix.Machine.{Machine, page_size}
use cynix.Misc.{align_up, align_down}
use cynix.Vmm.{Vmm, vmm_map_page, map_pages, page_rounds, vmm_map_span}
use cynix.Vmm.Tables.{SameBoot, SameBoot-trans, is_present, walk, Prefix, AreIndices}
use cynix.Vmm.Path.{path}
use cynix.Vmm.Map.{levels, IsPagemap, Mapped, mapped, no_memory, vmm_map_page-Mapped}

abbrev pub same_path : List ℕ → List ℕ → Bool
same_path [] [] = true
same_path [] (j ∷ js) = false
same_path (i ∷ is) [] = false
same_path (i ∷ is) (j ∷ js) = (i == j) && same_path is js

-- What the hardware makes of an entry
abbrev pub seen : ℕ → Option ℕ
seen value = if is_present value then some value else none

-- A translation by paths of indices, with the entry for one page replaced.
abbrev pub Translation : Type 0
Translation = List ℕ → Option ℕ

abbrev pub with_page : (la57 : Bool) (virt value : ℕ) → Translation → Translation
with_page la57 virt value f is = if same_path is (path la57 virt) then seen value else f is

-- The entries for `n` pages replaced one after the other, from `i` bytes into the span on.
abbrev pub with_pages : (la57 : Bool) (virt phys flags i n : ℕ) → Translation → Translation
with_pages la57 virt phys flags i zero f = f
with_pages la57 virt phys flags i (suc n) f =
    with_pages la57 virt phys flags (i + page_size) n
      (with_page la57 (add64 virt i) (bit_or (add64 phys i) flags) f)

same_path-true : (is js : List ℕ) → same_path is js ≡ true → is ≡ js
same_path-true [] [] e = refl
same_path-true [] (j ∷ js) e = absurd (cc)
same_path-true (i ∷ is) [] e = absurd (cc)
same_path-true (i ∷ is) (j ∷ js) e =
    let tail = same_path-true is js (ground arith) in
    let head : i ≡ j = ground arith in rw (head, tail) refl

same_path_refl : (is : List ℕ) → same_path is is ≡ true
same_path_refl [] = refl
same_path_refl (i ∷ is) = ground (arith, same_path_refl is)

same_path-false : (is js : List ℕ) → same_path is js ≡ false → is ≢ js
same_path-false is js e same =
    true-ne-false (sym (same_path_refl js) ∙ ap (λ (t : List ℕ). same_path t js) (sym same) ∙ e)
  where
    true-ne-false : true ≢ false
    true-ne-false h = cc

-- A pagemap after a span: `f` is the translation that it had.
pub data Spanned (v : Vmm) (root : ℕ) (f : Translation) (r : Run Vmm (Unit {0})) : Type 0 where
  spanned :
      (m' : Machine) (label' : ℕ → Option Prefix)
      → r ≡ ok tt (record v { machine = m' })
      → IsPagemap (record v { machine = m' }) root label'
      → m'.interrupts ≡ v.machine.interrupts
      → SameBoot v.machine m'
      → ((is : List ℕ) → length is ≡ levels v.vmm_la57 → AreIndices is → walk m' root is ≡ f is)
      → Spanned v root f r
  ran_out : r ≡ panics out_of_memory → Spanned v root f r

-- The entries after a span depend on the translation before it at the same path alone.
pub with_pages-cong :
    (la57 : Bool) (virt phys flags i n : ℕ) (f g : Translation) (is : List ℕ)
    → f is ≡ g is
    → with_pages la57 virt phys flags i n f is ≡ with_pages la57 virt phys flags i n g is
with_pages-cong la57 virt phys flags i zero f g is e = e
with_pages-cong la57 virt phys flags i (suc n) f g is e =
    with_pages-cong la57 virt phys flags (i + page_size) n _ _ is (
      ap
        (λ (t : Option ℕ).
          if same_path is (path la57 (add64 virt i)) then seen (bit_or (add64 phys i) flags) else t)
        e)

module _ (virt phys flags : ℕ) where
  abbrev Goal : (v : Vmm) (root i n : ℕ) → Type 0
  Goal v root i n =
      Spanned v root (with_pages v.vmm_la57 virt phys flags i n (walk v.machine root))
        (map_pages virt phys flags i n v)

  one_page :
      (v : Vmm) (root : ℕ) (m : Machine) (i : ℕ)
      → (walk m root (path v.vmm_la57 (add64 virt i)) ≡ seen (bit_or (add64 phys i) flags))
      → ((is : List ℕ)
          → length is ≡ levels v.vmm_la57
          → AreIndices is
          → is ≢ path v.vmm_la57 (add64 virt i)
          → walk m root is ≡ walk v.machine root is)
      → (is : List ℕ) → length is ≡ levels v.vmm_la57
      → AreIndices is
      → walk m root is
        ≡ with_page v.vmm_la57 (add64 virt i) (bit_or (add64 phys i) flags) (walk v.machine root) is
  one_page v root m i here others is len ok' =
      elim (Bool-cases (same_path is (path v.vmm_la57 (add64 virt i)))) [
        | inl e ↦ rw e (ap (walk m root) (same_path-true is _ e) ∙ here)
        | inr e ↦ rw e (others is len ok' (same_path-false is _ e))
      ]

  pub map_pages-Spanned :
      (n i : ℕ) (v : Vmm) (root : ℕ) (label : ℕ → Option Prefix)
      → IsPagemap v root label
      → Goal v root i n
  unfolding map_pages
  map_pages-Spanned zero i v root label pm =
      spanned v.machine _ refl pm refl (record { same_hhdm = refl; same_memmap = refl })
        (λ is len ok'. refl)
  map_pages-Spanned (suc n) i v root label pm =
      go
        (λ m label' pm'.
          map_pages-Spanned n (i + page_size) (record v { machine = m }) root label' pm')
        (vmm_map_page-Mapped (add64 virt i) (add64 phys i) flags pm)
    where
      next :
          (m : Machine)
          → vmm_map_page (add64 virt i) (add64 phys i) flags v ≡ ok tt (record v { machine = m })
          → m.interrupts ≡ v.machine.interrupts
          → SameBoot v.machine m
          → ((is : List ℕ)
              → length is ≡ levels v.vmm_la57
              → AreIndices is
              → walk m root is
                ≡ with_page v.vmm_la57
                    (add64 virt i)
                    (bit_or (add64 phys i) flags)
                    (walk v.machine root)
                    is)
          → Goal (record v { machine = m }) root (i + page_size) n
          → Goal v root i (suc n)
      next m e flag boot one (spanned m' label' e' pm' flag' boot' all) =
          spanned m' label' (rw (e, e')) pm' (flag' ∙ flag) (SameBoot-trans boot boot')
            (λ is len ok'.
              all is len ok'
              ∙ with_pages-cong v.vmm_la57 virt phys flags (i + page_size) n _ _ is
                  (one is len ok'))
      next m e flag boot one (ran_out e') = ran_out (rw (e, e'))

      go :
          ((m : Machine) (label' : ℕ → Option Prefix)
            → IsPagemap (record v { machine = m }) root label'
            → Goal (record v { machine = m }) root (i + page_size) n)
          → Mapped v root label
              (add64 virt i)
              (bit_or (add64 phys i) flags)
              (vmm_map_page (add64 virt i) (add64 phys i) flags v)
          → Goal v root i (suc n)
      go rest (mapped m label' e pm' flag boot here others) =
          next m e flag boot (one_page v root m i here others) (rest m label' pm')
      go rest (no_memory e) = ran_out (rw e)

module _ (virt phys flags len : ℕ) (fits : phys + len + page_size ≤ word_mod) where
  -- The pages from the one that holds `phys` to the one that holds the last byte
  abbrev pub span_pages : ℕ
  span_pages = (phys + len + 4095) / page_size - phys / page_size

  span_rounds :
      page_rounds (sub64 (align_up (add64 phys len) page_size) (align_down phys page_size))
      ≡ span_pages
  unfolding align_up align_down
  span_rounds = omega arith

  -- On a pagemap whose tables form a tree and whose lock is free, for a 64-bit virtual address and
  -- a physical span that ends at least a page below 2 ^ 64, `vmm_map_span` either panics because
  -- memory has run out, or returns with such a pagemap again, the interrupt flag, the direct map's
  -- offset and the memory map as before, and the translation of every path of indices changed as
  -- by replacing the entry of each page of the span, one after the other, from the pages that hold
  -- the two addresses on.
  pub vmm_map_span-Spanned :
      (v : Vmm) (root : ℕ) (label : ℕ → Option Prefix)
      → virt < word_mod
      → IsPagemap v root label
      → Spanned v root
          (with_pages v.vmm_la57
            (virt / page_size * page_size)
            (phys / page_size * page_size)
            flags
            0
            span_pages
            (walk v.machine root))
          (vmm_map_span virt phys len flags v)
  unfolding vmm_map_span
  vmm_map_span-Spanned v root label lt pm =
      let virt_base : align_down virt page_size ≡ virt / page_size * page_size =
        unfold align_down in omega arith in
      let phys_base : align_down phys page_size ≡ phys / page_size * page_size =
        unfold align_down in omega arith in
      rw (span_rounds, virt_base, phys_base)
        (map_pages-Spanned (virt / page_size * page_size) (phys / page_size * page_size) flags
          span_pages 0 v root label pm)
