-- ===== src/Slab/Calls.antt =====
-- `alloc_from_slab` and `free_in_slab` on slabs that are set up.
use cynix.Base.{
  ℕ, ◌+◌, ◌≤◌, ◌<◌, ◌≡◌, ◌≢◌, refl, sym, ap, ◌∙◌, ◌⊎◌, inl, inr, Bool, ==_true, ==_false,
  Bool-cases, none, some, List, [], ◌∷◌, true, false, update, update_ne, update_all, arith, subst,
}
use cynix.Base.Run.{Run, ok, panics, out_of_memory}
use cynix.Pmm.{pmm_alloc_nozero}
use cynix.Pmm.Alloc.{Allocated, allocated, out_of_pages, taken, pmm_alloc_nozero-Allocated}
use cynix.Spinlock.{spinlock_acquire, spinlock_release}
use cynix.Slab.{Slabs, acquire_slab, release_slab, refill, alloc_from_slab, create_slab}
use cynix.Slab.Classes.{class_size}
use cynix.Slab.Chains.{Chain}
use cynix.Slab.Create.{created, create_slab-created, create_slab-panics}
use cynix.Slab.Entries.{Blocks}
use cynix.Slab.Heap.{Free, Live, IsHeap, below_12}
use cynix.Slab.Moves.{popped-IsHeap, with_lock-IsHeap, head-none}
use cynix.Slab.Grown.{grown-IsHeap, grown_free-first, kept}

-- The slabs below `n` between two calls, with what the callers hold
pub record IsSlabs (n : ℕ) (s : Slabs) (live : Live) : Type 0 where
  pub blocks : Blocks
  pub free : Free
  pub heap : IsHeap n s blocks free live
  pub unlocked : (i : ℕ) → i < n → s.lock i ≡ false

-- What callers hold is as it was.
abbrev pub Kept : Live → Slabs → Slabs → Type 0
Kept live s t =
    (b j x : ℕ)
    → live b ≡ some j
    → b ≤ x
    → x < b + class_size j
    → t.machine.word x ≡ s.machine.word x

-- The locks once lock `i` was taken and given back
abbrev pub cycled : (ℕ → Bool) → (i : ℕ) → ℕ → Bool
cycled lock i = update (update lock i true) i false

pub data Given (n i : ℕ) (s : Slabs) (live : Live) (r : Run Slabs ℕ) : Type 0 where
  given :
      (a : ℕ) (t : Slabs)
      → r ≡ ok a t
      → IsSlabs n t (update live a (some i))
      → live a ≡ none
      → 0 < a
      → Kept live s t
      → Given n i s live r
  no_memory : r ≡ panics out_of_memory → Given n i s live r

List-cases : (as' : List ℕ) → (as' ≡ []) ⊎ ((a : ℕ) × (rest : List ℕ) × (as' ≡ a ∷ rest))
List-cases [] = inl refl
List-cases (a ∷ rest) = inr (a, rest, refl)

pub acquire_slab-ok :
    (i : ℕ) (s : Slabs)
    → s.machine.interrupts ≡ false
    → s.lock i ≡ false
    → acquire_slab i s ≡ ok tt (record s { lock = update s.lock i true })
unfolding spinlock_acquire
acquire_slab-ok i s quiet free = ground arith

pub release_slab-ok :
    (i : ℕ) (s : Slabs) → release_slab i s ≡ ok tt (record s { lock = update s.lock i false })
unfolding spinlock_release
release_slab-ok i s = elim (Bool-cases (s.lock i)) [
  | inl held ↦ ground arith
  | inr free ↦ ground arith
]

module _ {n i : ℕ} {s : Slabs} {live : Live} (h : IsSlabs n s live) (lt : i < n) where
  abbrev pub held : Slabs
  held = record s { lock = update s.lock i true }

  -- The first entry of the list of slab `i`, and the state without it, its lock free
  abbrev pub taken_from : Slabs → Run Slabs ℕ
  taken_from t = ok (t.first_free i) (record t {
    first_free = update t.first_free i (t.machine.word (t.first_free i));
    lock = update t.lock i false;
  })

  pub alloc_from_slab-head : 0 < s.first_free i → alloc_from_slab i s ≡ taken_from held
  unfolding alloc_from_slab refill spinlock_acquire spinlock_release
  alloc_from_slab-head pos = rw (
    alloc_from_slab,
    acquire_slab-ok i s h.heap.quiet (h.unlocked i lt),
    refill,
    ==_false (s.first_free i) 0 (omega arith),
    release_slab-ok,
  )

  alloc_from_slab-refilled :
      (t : Slabs)
      → s.first_free i ≡ 0
      → create_slab i (class_size i) held ≡ ok tt t
      → alloc_from_slab i s ≡ taken_from t
  unfolding alloc_from_slab refill spinlock_acquire spinlock_release
  alloc_from_slab-refilled t e c = rw (
    alloc_from_slab,
    acquire_slab-ok i s h.heap.quiet (h.unlocked i lt),
    refill,
    ==_true (s.first_free i) 0 e,
    h.heap.sizes i lt,
    c,
    release_slab-ok,
  )

  alloc_from_slab-panics :
      s.first_free i ≡ 0
      → create_slab i (class_size i) held ≡ panics out_of_memory
      → alloc_from_slab i s ≡ panics out_of_memory
  unfolding alloc_from_slab refill spinlock_acquire spinlock_release
  alloc_from_slab-panics e c = rw (
    alloc_from_slab,
    acquire_slab-ok i s h.heap.quiet (h.unlocked i lt),
    refill,
    ==_true (s.first_free i) 0 e,
    h.heap.sizes i lt,
    c,
  )

  taken_from-Given :
      (t : Slabs) (blocks : Blocks) (free : Free) (a : ℕ) (rest : List ℕ)
      → IsHeap n t blocks free live
      → free i ≡ a ∷ rest
      → ((j : ℕ) → j < n → i ≢ j → t.lock j ≡ false)
      → Kept live s t
      → {r : Run Slabs ℕ} → r ≡ taken_from t
      → Given n i s live r
  taken_from-Given t blocks free a rest heap e others same e' =
      let c = subst (Chain t.machine.word (t.first_free i)) e (heap.chain i lt) in
      let e'' : free i ≡ t.first_free i ∷ rest = e ∙ ap (λ x. x ∷ rest) (sym c.0) in
      given (t.first_free i)
        (record t {
          first_free = update t.first_free i (t.machine.word (t.first_free i));
          lock = update t.lock i false;
        })
        e'
        (record {
          blocks = blocks;
          free = update free i rest;
          heap = with_lock-IsHeap (popped-IsHeap heap lt e'') (update t.lock i false);
          unlocked =
              update_all (λ j b. j < n → b ≡ false) t.lock i false (λ _. refl)
                (λ j ne l. others j l ne);
        })
        (head-none heap lt e'') (subst (λ x. 0 < x) (sym c.0) c.1) same

  other_locks : (j : ℕ) → j < n → i ≢ j → held.lock j ≡ false
  other_locks j l ne = update_ne s.lock true ne ∙ h.unlocked j l

  pub held-IsHeap : IsHeap n held h.blocks h.free live
  held-IsHeap = with_lock-IsHeap h.heap (update s.lock i true)

  -- The list is empty, and so a new block is made.
  refilled-Given :
      h.free i ≡ []
      → Allocated held.machine 64 (taken held.machine 64) (pmm_alloc_nozero 64 held.machine)
      → Given n i s live (alloc_from_slab i s)
  refilled-Given empty (allocated page whole fits fresh _ e _) =
      let small = below_12 h.heap lt in
      let zero_head : s.first_free i ≡ 0 =
        subst (Chain s.machine.word (s.first_free i)) empty (h.heap.chain i lt) in
      let made = create_slab-created held i small page (omega (arith, h.heap.valid.mapped)) e in
      let grown =
        grown-IsHeap held-IsHeap i n page small h.heap.few lt (omega arith) (λ j l _. l) whole fits
          fresh in
      taken_from-Given (created held i page) _ _ _ _ grown
        (grown_free-first held-IsHeap i n page small h.heap.few lt (omega arith) (λ j l _. l) whole
          fits fresh)
        (λ j l ne. update_ne held.lock false ne ∙ other_locks j l ne)
        (λ b j x live_b le inside.
          let (l, en, _) = held-IsHeap.live_entry b j live_b in
          kept held-IsHeap i n page small h.heap.few lt (omega arith) (λ j l _. l) whole fits fresh
            (below_12 h.heap l) en x le inside)
        (alloc_from_slab-refilled (created held i page) zero_head made)
  refilled-Given empty (out_of_pages _ _ e) = no_memory (
      alloc_from_slab-panics
        (subst (Chain s.machine.word (s.first_free i)) empty (h.heap.chain i lt))
        (create_slab-panics held i (below_12 h.heap lt) e))

  -- On slabs that are set up, `alloc_from_slab` either panics as memory has run out, or returns an
  -- entry of slab `i` that nobody held and leaves what callers hold as it was.
  pub alloc_from_slab-Given : Given n i s live (alloc_from_slab i s)
  alloc_from_slab-Given = elim (List-cases (h.free i)) [
    | inl empty ↦
        refilled-Given empty
          (pmm_alloc_nozero-Allocated held.machine held-IsHeap.valid 64 (omega arith))
    | inr (a, rest, e) ↦
        let c = subst (Chain s.machine.word (s.first_free i)) e (h.heap.chain i lt) in
        taken_from-Given held h.blocks h.free a rest held-IsHeap e other_locks
          (λ b j x live_b le inside. refl) (alloc_from_slab-head (subst (λ x. 0 < x) (sym c.0) c.1))
  ]
