-- ===== src/Pmm/Owners.antt =====
-- Who owns which pages, over every sequence of allocations and frees.
use native.Mathlib.Decide.{ℕ_discrete, dec_le, dec_lt}
use cynix.Base.{
  ℕ, ◌+◌, ◌*◌, ◌≤◌, ◌<◌, ◌≡◌, refl, ◌≢◌, ◌⊎◌, inl, inr, sym, ◌∙◌, ap, subst, true, Option, none,
  some, arith, update,
}
use mathlib.Core.Bool.{false≢true}
use cynix.Base.Run.{Run, ok}
use cynix.Machine.{Machine, page_size}
use cynix.Misc.{bit_test}
use cynix.Pmm.{pmm_alloc_nozero, pmm_free}
use cynix.Pmm.Alloc.{IsValid, taken}
use cynix.Pmm.Scan.{FreeRun}
use cynix.Pmm.Free.{
  returned, pmm_free_lem, taken-IsValid, returned-IsValid, bit_test-taken, bit_test-returned, Took,
  pmm_alloc_nozero-Took,
}

pub record Block : Type 0 where
  pub first : ℕ
  pub count : ℕ

abbrev pub Holds : Block → ℕ → Type 0
Holds b j = (b.first ≤ j) × (j < b.first + b.count)

-- The blocks that callers hold, by the number of the call that handed them out.
abbrev pub Ledger : Type 0
Ledger = ℕ → Option Block

pub record World : Type 0 where
  pub machine : Machine
  pub owned : Ledger
  pub calls : ℕ

-- A caller allocates, or frees a block that it holds.
pub data Call : World → World → Type 0 where
  allocate :
      {w : World} {addr : ℕ} {m' : Machine} (page n : ℕ)
      → 0 < n
      → pmm_alloc_nozero n w.machine ≡ ok addr m'
      → addr ≡ page * page_size
      → Call w (record {
        machine = m';
        owned = update w.owned w.calls (some (record { first = page; count = n }));
        calls = w.calls + 1;
      })
  release :
      {w : World} {m' : Machine} (i : ℕ) (b : Block)
      → w.owned i ≡ some b
      → pmm_free (b.first * page_size) b.count w.machine ≡ ok tt m'
      → Call w (record { machine = m'; owned = update w.owned i none; calls = w.calls })

pub data Reach (w : World) : World → Type 0 where
  here : Reach w w
  next : {u t : World} → Reach w u → Call u t → Reach w t

pub record IsOwned (w : World) : Type 0 where
  pub valid : IsValid w.machine
  pub fresh : (i : ℕ) → w.calls ≤ i → w.owned i ≡ none
  -- Each block lies in memory, is not empty, and its pages are in use.
  pub in_memory :
      (i : ℕ) (b : Block)
      → w.owned i ≡ some b
      → (0 < b.count) × (b.first + b.count ≤ w.machine.pmm_avl_page_count)
  pub in_use :
      (i : ℕ) (b : Block) (j : ℕ)
      → w.owned i ≡ some b
      → Holds b j
      → bit_test w.machine.pmm_bitmap j ≡ true
  -- No page belongs to two blocks.
  pub apart :
      (i k : ℕ) (b c : Block) (j : ℕ)
      → w.owned i ≡ some b
      → w.owned k ≡ some c
      → Holds b j
      → Holds c j
      → i ≡ k

-- Whether a block holds a page.
dec_held : (b : Block) (j : ℕ) → Dec (Holds b j)
dec_held b j = elim (dec_le b.first j) [
  | no below ↦ no λ h. below h.0
  | yes above ↦ elim (dec_lt j (b.first + b.count)) [
    | yes inside ↦ yes (above, inside)
    | no past ↦ no λ h. past h.1
  ]
]

returns_once :
    {m' m'' : Machine} {r : Run Machine (Unit {0})} → r ≡ ok tt m' → r ≡ ok tt m'' → m' ≡ m''
returns_once e f = cc

module _ {w : World} (o : IsOwned w) where
  -- A ledger entry after an allocation is the new block, or an older one of another number.
  entry :
      (new : Block) (i : ℕ) (b : Block)
      → update w.owned w.calls (some new) i ≡ some b
      → ((i ≡ w.calls) × (b ≡ new)) ⊎ ((i ≢ w.calls) × (w.owned i ≡ some b))
  entry new i b e = elim (ℕ_discrete i w.calls) [
    | yes same ↦ inl (same, ground arith)
    | no other ↦ inr (other, ground arith)
  ]

  left : (i k : ℕ) (b : Block) → update w.owned i none k ≡ some b → (i ≢ k) × (w.owned k ≡ some b)
  left i k b e = elim (ℕ_discrete i k) [
    | yes same ↦ absurd (ground arith)
    | no other ↦ (other, ground arith)
  ]

  module _ (page n : ℕ) (pos : 0 < n) (fits : page + n ≤ w.machine.pmm_avl_page_count) where
    abbrev new : Block
    new = record { first = page; count = n }

    abbrev given : World
    given = record {
      machine = taken w.machine n page;
      owned = update w.owned w.calls (some new);
      calls = w.calls + 1;
    }

    module _ (free : FreeRun w.machine.pmm_bitmap page n) where
      -- No older block holds a page that was free.
      stranger : (k : ℕ) (c : Block) (j : ℕ) → w.owned k ≡ some c → Holds c j → Holds new j → ⊥
      stranger k c j e hc hn = false≢true (sym (free j hn.0 hn.1) ∙ o.in_use k c j e hc)

      given-apart :
          (i k : ℕ) (b c : Block) (j : ℕ)
          → (i ≡ w.calls) × (b ≡ new) ⊎ (i ≢ w.calls) × (w.owned i ≡ some b)
          → (k ≡ w.calls) × (c ≡ new) ⊎ (k ≢ w.calls) × (w.owned k ≡ some c)
          → Holds b j
          → Holds c j
          → i ≡ k
      given-apart i k b c j (inl (e, _)) (inl (f, _)) hb hc = e ∙ sym f
      given-apart i k b c j (inl (_, e)) (inr (_, f)) hb hc =
          absurd (stranger k c j f hc (subst (λ (x : Block). Holds x j) e hb))
      given-apart i k b c j (inr (_, e)) (inl (_, f)) hb hc =
          absurd (stranger i b j e hb (subst (λ (x : Block). Holds x j) f hc))
      given-apart i k b c j (inr (_, e)) (inr (_, f)) hb hc = o.apart i k b c j e f hb hc

      given-IsOwned : IsOwned given
      given-IsOwned = record {
        valid = taken-IsValid w.machine n page o.valid fits;
        fresh = λ i le. ground (arith, o.fresh i);
        in_memory = λ i b e. elim (entry new i b e) [
          | inl (_, e') ↦
              subst
                (λ (x : Block). (0 < x.count) × (x.first + x.count ≤ w.machine.pmm_avl_page_count))
                (sym e') (pos, fits)
          | inr (_, old) ↦ o.in_memory i b old
        ];
        in_use = λ i b j e h. elim (entry new i b e) [
          | inl (_, e') ↦
              let at : Holds new j = subst (λ (x : Block). Holds x j) e' h in
              ground (arith, bit_test-taken w.machine n page o.valid j)
          | inr (_, old) ↦
              ground (arith, bit_test-taken w.machine n page o.valid j, o.in_use i b j old h)
        ];
        apart =
            λ i k b c j e f hb hc. given-apart i k b c j (entry new i b e) (entry new k c f) hb hc;
      }

  module _ (i : ℕ) (b : Block) (e : w.owned i ≡ some b) where
    abbrev without : World
    without = record {
      machine = returned w.machine b.count b.first;
      owned = update w.owned i none;
      calls = w.calls;
    }

    without-IsOwned : IsOwned without
    without-IsOwned = record {
      valid = returned-IsValid w.machine b.count b.first o.valid;
      fresh = λ k le. ground (arith, o.fresh k);
      in_memory = λ k c f. o.in_memory k c (left i k c f).1;
      in_use = λ k c j f h. elim (dec_held b j) [
        | yes at ↦ absurd ((left i k c f).0 (o.apart i k b c j e (left i k c f).1 at h))
        | no off ↦ ground (
          arith,
          bit_test-returned w.machine b.count b.first o.valid j,
          o.in_use k c j (left i k c f).1 h,
        )
      ];
      apart = λ k l c d j f g hc hd. o.apart k l c d j (left i k c f).1 (left i l d g).1 hc hd;
    }

-- The machine that `allocate` leaves, with the page that it names.
Took-page :
    {m m' : Machine} {n addr : ℕ} (page : ℕ) (t : Took m n addr m')
    → addr ≡ page * page_size
    → t.page ≡ page
Took-page page t e = omega (arith, t.address)

-- Every call by an owner keeps the ledger: no page is ever in two blocks.
pub Call-IsOwned : {w t : World} → Call w t → IsOwned w → IsOwned t
Call-IsOwned (allocate {w} {addr} {m'} page n pos e at) o =
    let t = pmm_alloc_nozero-Took n o.valid pos e in
    let same = Took-page page t at in
    let fits : page + n ≤ w.machine.pmm_avl_page_count = omega (arith, t.fits) in
    subst
      (λ (m : Machine). IsOwned (record {
        machine = m;
        owned = update w.owned w.calls (some (record { first = page; count = n }));
        calls = w.calls + 1;
      }))
      (sym (t.state ∙ ap (taken w.machine n) same))
      (given-IsOwned o page n pos fits
        (subst (λ (x : ℕ). FreeRun w.machine.pmm_bitmap x n) same t.free))
Call-IsOwned (release {w} {m'} i b held e) o =
    let (pos, fits) = o.in_memory i b held in
    let freed = pmm_free_lem w.machine b.count b.first o.valid pos fits in
    subst
      (λ (m : Machine).
        IsOwned (record { machine = m; owned = update w.owned i none; calls = w.calls }))
      (sym (returns_once e freed)) (without-IsOwned o i b held)

Reach-IsOwned : {w t : World} → IsOwned w → Reach w t → IsOwned t
Reach-IsOwned o here = o
Reach-IsOwned o (next r c) = Call-IsOwned c (Reach-IsOwned o r)

-- Nobody owns a page yet.
abbrev pub unowned : Machine → World
unowned m = record { machine = m; owned = λ _. none; calls = 0 }

unowned-IsOwned : (m : Machine) → IsValid m → IsOwned (unowned m)
unowned-IsOwned m v = record {
  valid = v;
  fresh = λ i le. refl;
  in_memory = λ i b e. absurd (cc);
  in_use = λ i b j e h. absurd (cc);
  apart = λ i k b c j e f hb hc. absurd (cc);
}

-- From a valid state in which no block is held, after any sequence of allocations and of frees of
-- blocks that are held, a page lies in at most one held block, and each page of a held block is
-- marked in use.
pub Reach-exclusive :
    (m : Machine) {t : World}
    → IsValid m
    → Reach (unowned m) t
    → (i k : ℕ) (b c : Block) (j : ℕ) → t.owned i ≡ some b
    → t.owned k ≡ some c
    → Holds b j
    → Holds c j
    → (i ≡ k) × (bit_test t.machine.pmm_bitmap j ≡ true)
Reach-exclusive m v r i k b c j e f hb hc =
    let o' = Reach-IsOwned (unowned-IsOwned m v) r in
    (o'.apart i k b c j e f hb hc, o'.in_use i b j e hb)
