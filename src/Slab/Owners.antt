-- ===== src/Slab/Owners.antt =====
-- Who holds which entry, over every sequence of the slab allocator's calls.
use native.Mathlib.Decide.{ℕ_discrete}
use cynix.Base.{
  ℕ, ◌+◌, ◌*◌, ◌^◌, ◌≤◌, ◌<◌, ◌≡◌, ◌≢◌, refl, sym, ap, ◌∙◌, ◌⊎◌, inl, inr, Option, none, some,
  if◌then◌else◌, ◌==◌, ==_true, ==_false, update, arith, subst,
}
use cynix.Base.Run.{Run, ok}
use cynix.Machine.{page_size}
use cynix.Slab.{Slabs, slab_address, slab_for, slab_alloc, slab_realloc, slab_free}
use cynix.Slab.Classes.{class_size}
use cynix.Slab.Create.{block_size}
use cynix.Slab.Entries.{entry_below}
use cynix.Slab.Heap.{Live, with_words, live_apart}
use cynix.Slab.Moves.{written-IsHeap}
use cynix.Slab.Calls.{IsSlabs}
use cynix.Slab.Frees.{freed-IsSlabs, slab_free-freed, held_inside}
use cynix.Slab.Requests.{
  Lent, lent, too_large, out, slab_alloc-Lent, Resized, stays, refused, moves,
}
use cynix.Slab.Resize.{slab_realloc-Resized}

pub record World : Type 0 where
  pub slabs : Slabs
  pub live : Live

-- Who holds what once a request that leads to slab `o` has returned `a`
abbrev lend : (o : Option ℕ) (a : ℕ) → Live → Live
lend (some i) a live = update live a (some i)
lend none a live = live

-- The same once a resizing of `a` has returned `b`
abbrev swap : (o : Option ℕ) (a b : ℕ) → Live → Live
swap o a b live = if b == a then live else if b == 0 then live else update (lend o b live) a none

pub data Step : World → World → Type 0 where
  allocate :
      {w : World} {t : Slabs} (size a : ℕ)
      → 0 < size
      → size < 2 ^ 64
      → slab_alloc size w.slabs ≡ ok a t
      → Step w (record { slabs = t; live = lend (slab_for w.slabs.stale size) a w.live })
  resize :
      {w : World} {t : Slabs} (a i size b : ℕ)
      → w.live a ≡ some i
      → size < 2 ^ 64
      → slab_realloc a size w.slabs ≡ ok b t
      → Step w (record { slabs = t; live = swap (slab_for w.slabs.stale size) a b w.live })
  release :
      {w : World} {t : Slabs} (a i : ℕ)
      → w.live a ≡ some i
      → slab_free a w.slabs ≡ ok tt t
      → Step w (record { slabs = t; live = update w.live a none })
  -- A holder writes a word of its entry.
  write :
      {w : World} (a i k v : ℕ)
      → w.live a ≡ some i
      → 8 * k < class_size i
      → Step w (record w { slabs = with_words w.slabs (update w.slabs.machine.word (a + 8 * k) v) })

pub data Reach (w : World) : World → Type 0 where
  here : Reach w w
  next : {u t : World} → Reach w u → Step u t → Reach w t

-- A run returns once.
same_return :
    {A : Type 0} {r : Run Slabs A} {a b : A} {s t : Slabs}
    → r ≡ ok a s
    → r ≡ ok b t
    → (a ≡ b) × (s ≡ t)
same_return e f = (cc, cc)

carry :
    {A : Type 0} (P : A → Slabs → Type 0) {r : Run Slabs A} {a b : A} {s t : Slabs}
    → r ≡ ok a s
    → r ≡ ok b t
    → P a s
    → P b t
carry P {b = b} {s = s} e f p =
    let (x, y) = same_return e f in subst (P b) y (subst (λ c. P c s) x p)

allocate-IsSlabs :
    {s t : Slabs} {live : Live} {size a : ℕ}
    → IsSlabs 12 s live
    → Lent size s live (slab_alloc size s)
    → slab_alloc size s ≡ ok a t
    → IsSlabs 12 t (lend (slab_for s.stale size) a live)
allocate-IsSlabs {s} {live = live} {size = size} h (lent i b u e o _ _ h' _ _ _) f =
    carry (λ c v. IsSlabs 12 v (lend (slab_for s.stale size) c live)) e f
      (subst (λ k. IsSlabs 12 u (lend k b live)) (sym o) h')
allocate-IsSlabs {s} {live = live} {size = size} h (too_large _ o e) f =
    carry (λ c v. IsSlabs 12 v (lend (slab_for s.stale size) c live)) e f
      (subst (λ k. IsSlabs 12 s (lend k 0 live)) (sym o) h)
allocate-IsSlabs h (out e) f = absurd (cc)

resize-IsSlabs :
    {s t : Slabs} {live : Live} {a i size b : ℕ}
    → IsSlabs 12 s live
    → live a ≡ some i
    → Resized a i size s live (slab_realloc a size s)
    → slab_realloc a size s ≡ ok b t
    → IsSlabs 12 t (swap (slab_for s.stale size) a b live)
resize-IsSlabs {s} {live = live} {a = a} {size = size} h held (stays _ e) f =
    carry (λ c v. IsSlabs 12 v (swap (slab_for s.stale size) a c live)) e f
      (rw (==_true a a refl) h)
resize-IsSlabs {s} {live = live} {a = a} {size = size} h held (refused _ _ e) f =
    let some_a : a ≢ 0 = omega (arith, (held_inside h held).0) in
    carry (λ c v. IsSlabs 12 v (swap (slab_for s.stale size) a c live)) e f
      (rw (==_false 0 a (λ z. some_a (sym z))) h)
resize-IsSlabs {s} {live = live} {a = a} {i = i} {size = size} h held
      (moves _ j c u e o _ new pos h' _ _) f =
    let other : c ≢ a = λ z. (let clash : none ≡ some i = sym new ∙ ap live z ∙ held in cc) in
    carry (λ d v. IsSlabs 12 v (swap (slab_for s.stale size) a d live)) e f
      (rw (==_false c a other, ==_false c 0 (omega arith), o) h')
resize-IsSlabs h held (out _ e) f = absurd (cc)

Step-IsSlabs : {w u : World} → Step w u → IsSlabs 12 w.slabs w.live → IsSlabs 12 u.slabs u.live
Step-IsSlabs (allocate size a pos small e) h =
    allocate-IsSlabs h (slab_alloc-Lent h size pos small) e
Step-IsSlabs (resize a i size b held small e) h =
    resize-IsSlabs h held (slab_realloc-Resized h held size small) e
Step-IsSlabs (release {w} a i held e) h =
    carry (λ _ v. IsSlabs 12 v (update w.live a none)) (slab_free-freed h held) e
      (freed-IsSlabs h held)
Step-IsSlabs (write a i k v held inside) h = record {
  blocks = h.blocks;
  free = h.free;
  heap = written-IsHeap h.heap held k v inside;
  unlocked = h.unlocked;
}

pub Reach-IsSlabs :
    {w u : World} → IsSlabs 12 w.slabs w.live → Reach w u → IsSlabs 12 u.slabs u.live
Reach-IsSlabs h here = h
Reach-IsSlabs h (next r c) = Step-IsSlabs c (Reach-IsSlabs h r)

-- Where an entry lies: at a place behind the header of a block of its slab, which lies in the direct
-- map of memory.
pub record IsPlaced (s : Slabs) (i a : ℕ) : Type 0 where
  pub block : ℕ
  pub place : ℕ
  pub headed : s.machine.word (block * block_size) ≡ slab_address s i
  pub at : a ≡ block * block_size + class_size i * place
  pub behind : 1 ≤ place
  pub within : a + class_size i ≤ block * block_size + block_size
  pub above : s.machine.hhdm ≤ block * block_size
  pub below :
      block * block_size + block_size ≤ s.machine.pmm_avl_page_count * page_size + s.machine.hhdm

held-IsPlaced :
    {s : Slabs} {live : Live} {a i : ℕ} → IsSlabs 12 s live → live a ≡ some i → IsPlaced s i a
held-IsPlaced {a = a} {i = i} h held =
    let (lt, e, _) = h.heap.live_entry a i held in
    let t = h.heap.taken e.block i e.owner in
    record {
      block = e.block;
      place = e.place;
      headed = (h.heap.header e.block i e.owner).1;
      at = e.at;
      behind = e.first;
      within = entry_below lt e;
      above = t.above;
      below = omega (arith, t.inside);
    }

-- On slabs that are set up, after any sequence of calls of `slab_alloc`, of calls of
-- `slab_realloc` and `slab_free` on entries that are held, and of writes by holders to their
-- entries: every held entry lies within a block of the slab with its size, which lies in the
-- direct map of memory, at a whole number of entries, at least one, behind the start of the block,
-- where its header is; and two entries that are not the same do not overlap.
pub Reach-apart :
    {w u : World}
    → IsSlabs 12 w.slabs w.live
    → Reach w u
    → (a b i j : ℕ) → u.live a ≡ some i
    → u.live b ≡ some j
    → IsPlaced u.slabs i a × ((a ≡ b) ⊎ (a + class_size i ≤ b) ⊎ (b + class_size j ≤ a))
Reach-apart ready r a b i j held_a held_b =
    let h = Reach-IsSlabs ready r in
    (
      held-IsPlaced h held_a,
      elim (ℕ_discrete a b) [
        | yes e ↦ inl e
        | no ne ↦ inr (live_apart h.heap a b i j held_a held_b ne)
      ],
    )
