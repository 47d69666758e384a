-- ===== src/Slab/Grown.antt =====
-- What `create_slab` adds to the slabs: a block of fresh pages, all of whose entries are free.
use native.Mathlib.Decide.{dec_lt}
use mathlib.Core.Bool.{false≢true}
use native.Mathlib.Decide.{ℕ_discrete}
use cynix.Base.{
  ℕ, suc, ◌+◌, ◌-◌, ◌*◌, ◌/◌, ◌%◌, ◌≤◌, ◌<◌, ◌≡◌, ◌≢◌, refl, sym, ap, ◌∙◌, inl, inr, none, some,
  List, ◌∷◌, update, update_self, update_ne, update_all, update_both, Option-cases, word_mod, arith,
  subst,
}
use cynix.Machine.{page_size}
use cynix.Misc.{bit_test}
use cynix.Pmm.Alloc.{IsValid}
use cynix.Pmm.Free.{taken-IsValid, bit_test-taken}
use cynix.Pmm.Scan.{FreeRun}
use cynix.Slab.{Slabs, slab_address}
use cynix.Slab.Classes.{class_size, class_count, class}
use cynix.Slab.Chains.{Chain, In, Distinct, Chain-kept, spaced, In-spaced, spaced-Distinct}
use cynix.Slab.Create.{
  block_size, block_words, created, block_words-others, block_words-header, block_words-Chain,
}
use cynix.Slab.Entries.{Blocks, IsEntry, entry_above, entry_below}
use cynix.Slab.Heap.{Free, Live, IsHeap, IsTaken, IsStocked, below_12}

module _ {n : ℕ} {s : Slabs} {blocks : Blocks} {free : Free} {live : Live}
    (h : IsHeap n s blocks free live) (i m page : ℕ) (lt : i < 12) (few : m ≤ 12) (i_ready : i < m)
    (more : n ≤ m) (ready_from : (j : ℕ) → j < m → j ≢ i → j < n) (whole : page % 64 ≡ 0)
    (fits : page + 64 ≤ s.machine.pmm_avl_page_count)
    (fresh : FreeRun s.machine.pmm_bitmap page 64) where
  abbrev base : ℕ
  base = page * page_size + s.machine.hhdm

  abbrev pub new_block : ℕ
  new_block = base / block_size

  abbrev pub grown_blocks : Blocks
  grown_blocks = update blocks new_block (some i)

  abbrev fresh_entries : List ℕ
  fresh_entries = spaced (base + class_size i) (class_size i) (class_count i - 1)

  abbrev pub grown_free : Free
  grown_free = update free i fresh_entries

  at_block : new_block * block_size ≡ base
  at_block = omega (arith, h.aligned)

  in_words : base + block_size ≤ word_mod
  in_words = omega (arith, h.valid.mapped)

  abbrev words : ℕ → ℕ
  words = block_words s.machine.word base (slab_address s i) i

  unowned : blocks new_block ≡ none
  unowned = elim (Option-cases (blocks new_block)) [
    | inl is_none ↦ is_none
    | inr (j, e) ↦
        let used = (h.taken new_block j e).in_use 0 (omega arith) in
        let first : (new_block * block_size - s.machine.hhdm) / page_size + 0 ≡ page =
          omega (arith, at_block) in
        absurd (
          false≢true (
            sym (fresh page (omega arith) (omega arith))
            ∙ ap (bit_test s.machine.pmm_bitmap) (sym first)
            ∙ used))
  ]

  other_block : (c j : ℕ) → blocks c ≡ some j → new_block ≢ c
  other_block c j e same = let clash : none ≡ some j = sym unowned ∙ ap blocks same ∙ e in cc

  lifted : {j a : ℕ} → IsEntry blocks j a → IsEntry grown_blocks j a
  lifted e = record {
    block = e.block;
    place = e.place;
    owner = update_ne blocks (some i) (other_block e.block _ e.owner) ∙ e.owner;
    at = e.at;
    first = e.first;
    last = e.last;
  }

  -- An address in a block that was there is not touched.
  outside :
      (c x : ℕ)
      → new_block ≢ c
      → c * block_size ≤ x
      → x < c * block_size + block_size
      → words x ≡ s.machine.word x
  outside c x ne le inside =
      block_words-others s.machine.word base (slab_address s i) i lt in_words x
        (elim (dec_lt x base) [
          | yes below ↦ inl below
          | no not_below ↦ inr (omega (arith, at_block))
        ])

  pub kept :
      {j a : ℕ}
      → j < 12
      → IsEntry blocks j a
      → (x : ℕ) → a ≤ x
      → x < a + class_size j
      → words x ≡ s.machine.word x
  kept small e x le inside =
      outside e.block x (other_block e.block _ e.owner) (omega (arith, entry_above small e))
        (omega (arith, entry_below small e))

  grown-IsValid : IsValid (created s i page).machine
  grown-IsValid =
      let v = taken-IsValid s.machine 64 page h.valid fits in
      record {
        bytes = v.bytes;
        unlocked = v.unlocked;
        small = v.small;
        mapped = v.mapped;
        last_in = v.last_in;
      }

  grown-header :
      (c j : ℕ) → grown_blocks c ≡ some j → (j < m) × (words (c * block_size) ≡ slab_address s j)
  grown-header c =
      update_all
        (λ c o. (j : ℕ) → o ≡ some j → (j < m) × (words (c * block_size) ≡ slab_address s j)) blocks
        new_block (some i)
        (λ j same.
          let k : i ≡ j = ground arith in
          subst (λ j. (j < m) × (words (new_block * block_size) ≡ slab_address s j)) k
            (
              i_ready,
              ap words at_block
                  ∙ block_words-header s.machine.word base (slab_address s i) i lt in_words,
            ))
        (λ c ne j e.
          let (l, w) = h.header c j e in
          (omega arith, outside c (c * block_size) ne (omega arith) (omega arith) ∙ w))
        c

  grown-taken : (c j : ℕ) → grown_blocks c ≡ some j → IsTaken (created s i page).machine c
  grown-taken c =
      update_all (λ c o. (j : ℕ) → o ≡ some j → IsTaken (created s i page).machine c) blocks
        new_block (some i)
        (λ j same. record {
          above = omega (arith, at_block);
          inside = omega (arith, at_block);
          in_use = λ k k_lt.
              let at : (new_block * block_size - s.machine.hhdm) / page_size ≡ page =
                omega (arith, at_block) in
              ground (
                arith,
                bit_test-taken s.machine 64 page h.valid
                    ((new_block * block_size - s.machine.hhdm) / page_size + k),
              );
        })
        (λ c ne j e.
          let t = h.taken c j e in
          record {
            above = t.above;
            inside = t.inside;
            in_use = λ k k_lt. ground (
              arith,
              t.in_use k k_lt,
              bit_test-taken s.machine 64 page h.valid
                  ((c * block_size - s.machine.hhdm) / page_size + k),
            );
          })
        c

  fresh_entry : (a : ℕ) → In a fresh_entries → IsEntry grown_blocks i a
  fresh_entry a f =
      let (k, k_lt, e) = In-spaced a (base + class_size i) (class_size i) (class_count i - 1) f in
      record {
        block = new_block;
        place = k + 1;
        owner = update_self blocks new_block (some i);
        at = omega (arith, at_block);
        first = omega arith;
        last = omega arith;
      }

  grown-free_entry : (j a : ℕ) → j < m → In a (grown_free j) → IsEntry grown_blocks j a
  grown-free_entry j a =
      update_all (λ j r. j < m → In a r → IsEntry grown_blocks j a) free i fresh_entries
        (λ _ f. fresh_entry a f)
        (λ j ne l f. lifted (h.free_entry j a (ready_from j l (λ e. ne (sym e))) f)) j

  -- An old entry is not among the new ones.
  not_fresh : {j a : ℕ} → j < 12 → IsEntry blocks j a → ¬ In a fresh_entries
  unfolding fresh_entry
  not_fresh {j} {a} small e f =
      let g = fresh_entry a f in
      other_block e.block j e.owner (
        omega (
          arith,
          entry_above small e,
          entry_below small e,
          entry_above lt g,
          entry_below lt g,
          (class 0 i lt).some_bytes,
          (class 0 j small).some_bytes,
        ))

  grown-live :
      (a j : ℕ) → live a ≡ some j → (j < m) × IsEntry grown_blocks j a × (¬ In a (grown_free j))
  grown-live a j held =
      let (l, e, out) = h.live_entry a j held in (omega arith, lifted e, still l e out)
    where
      still : j < n → IsEntry blocks j a → (¬ In a (free j)) → ¬ In a (grown_free j)
      still l e =
          update_all (λ k r. (¬ In a (free k)) → ¬ In a r) free i fresh_entries
            (λ _. not_fresh (below_12 h l) e) (λ k _ out. out) j

  grown-chain : (j : ℕ) → j < m → Chain words ((created s i page).first_free j) (grown_free j)
  grown-chain =
      update_both (λ j x r. j < m → Chain words x r) (update s.first_free i base) free i
        (base + class_size i) fresh_entries
        (λ _. block_words-Chain s.machine.word base (slab_address s i) i lt in_words)
        (λ j ne l. old j ne (ready_from j l (λ e. ne (sym e))))
    where
      old : (j : ℕ) → i ≢ j → j < n → Chain words (update s.first_free i base j) (free j)
      old j ne l =
          subst (λ x. Chain words x (free j)) (sym (update_ne s.first_free base ne))
            (Chain-kept s.machine.word words (s.first_free j) (free j)
              (λ a f.
                kept (below_12 h l) (h.free_entry j a l f) a (omega arith)
                  (omega (arith, (class 0 j (below_12 h l)).some_bytes)))
              (h.chain j l))

  pub grown-IsHeap : IsHeap m (created s i page) grown_blocks grown_free live
  grown-IsHeap = record {
    valid = grown-IsValid;
    quiet = h.quiet;
    aligned = h.aligned;
    table = h.table;
    few = few;
    sizes =
        update_all (λ j x. j < m → x ≡ class_size j) s.ent_size i (class_size i) (λ _. refl)
          (λ j ne l. h.sizes j (ready_from j l (λ e. ne (sym e))));
    header = grown-header;
    taken = grown-taken;
    chain = grown-chain;
    distinct =
        update_all (λ j r. j < m → Distinct r) free i fresh_entries
          (λ _.
            spaced-Distinct (base + class_size i) (class_size i) (class_count i - 1)
              (omega (arith, (class 0 i lt).some_bytes)))
          (λ j ne l. h.distinct j (ready_from j l (λ e. ne (sym e))));
    free_entry = grown-free_entry;
    live_entry = grown-live;
  }

  pub grown_free-first :
      grown_free i
      ≡ (base + class_size i)
        ∷ spaced (base + class_size i + class_size i) (class_size i) (class_count i - 2)
  grown_free-first =
      let count : class_count i - 1 ≡ suc (class_count i - 2) =
        omega (arith, (class 0 i lt).some_entries) in
      update_self free i fresh_entries ∙ ap (spaced (base + class_size i) (class_size i)) count

  pub grown-IsStocked :
      ((j : ℕ) → j < n → IsStocked blocks free j)
      → (j : ℕ) → j < m
      → IsStocked grown_blocks grown_free j
  grown-IsStocked old j l = elim (ℕ_discrete i j) [
    | yes e ↦ subst (IsStocked grown_blocks grown_free) e (record {
      block = new_block;
      owner = update_self blocks new_block (some i);
      all =
          update_self free i fresh_entries
          ∙ ap (λ (b : ℕ). spaced (b + class_size i) (class_size i) (class_count i - 1))
              (sym at_block);
    })
    | no ne ↦
        let o = old j (ready_from j l (λ e. ne (sym e))) in
        record {
          block = o.block;
          owner = update_ne blocks (some i) (other_block o.block j o.owner) ∙ o.owner;
          all = update_ne free fresh_entries ne ∙ o.all;
        }
  ]
