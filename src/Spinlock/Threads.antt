-- ===== src/Spinlock/Threads.antt =====
-- CPUs that contend for one spinlock: each step is one atomic operation of one CPU.
use native.Mathlib.Decide.{ℕ_discrete}
use cynix.Base.{
  ℕ, ◌≡◌, refl, sym, ◌∙◌, ap, subst, ◌≢◌, ◌⊎◌, inl, inr, Bool-cases, Bool, true, false,
  if◌then◌else◌, update, update_self, update_ne,
}
use cynix.Base.Run.{Run, ok}
use cynix.Spinlock.{compare_and_swap, spinlock_test_acq, spinlock_release}

-- Where a CPU is: outside, in the loop of `spinlock_acquire`, or between its end and
-- `spinlock_release`.
pub data Place : Type 0 where
  outside waiting inside : Place

pub record Lock : Type 0 where
  pub spinlock : Bool
  pub place : ℕ → Place

-- One attempt of CPU `i`, as `spinlock_test_acq` makes it with interrupts off
abbrev attempted : Lock → (i : ℕ) → Run Bool Bool → Lock
attempted s i (ok got lock) = record {
  spinlock = lock;
  place = update s.place i (if got then inside else waiting);
}
attempted s i _ = s

abbrev released : Lock → (i : ℕ) → Run Bool (Unit {0}) → Lock
released s i (ok _ lock) = record { spinlock = lock; place = update s.place i outside }
released s i _ = s

pub data Step (s : Lock) : Lock → Type 0 where
  call : (i : ℕ) → s.place i ≡ outside → Step s (record s { place = update s.place i waiting })
  attempt :
      (i : ℕ) → s.place i ≡ waiting → Step s (attempted s i (spinlock_test_acq false s.spinlock))
  leave : (i : ℕ) → s.place i ≡ inside → Step s (released s i (spinlock_release s.spinlock))

pub data Reaches (s : Lock) : Lock → Type 0 where
  start : Reaches s s
  after : {t u : Lock} → Reaches s t → Step t u → Reaches s u

abbrev pub idle : Lock
idle = record { spinlock = false; place = λ i. outside }

-- At most one CPU is inside, and while one is, the lock is taken.
pub record IsExclusive (s : Lock) : Type 0 where
  pub taken : (i : ℕ) → s.place i ≡ inside → s.spinlock ≡ true
  pub one : (i j : ℕ) → s.place i ≡ inside → s.place j ≡ inside → i ≡ j
  -- A lock that is taken has a CPU that will release it.
  pub owned : s.spinlock ≡ true → (i : ℕ) × (s.place i ≡ inside)

true-ne-false : true ≢ false
true-ne-false e = cc

waiting-ne-inside : waiting ≢ inside
waiting-ne-inside e = cc

outside-ne-inside : outside ≢ inside
outside-ne-inside e = cc

which :
    (f : ℕ → Place) (i : ℕ) (p : Place) (j : ℕ)
    → update f i p j ≡ inside
    → ((i ≡ j) × (p ≡ inside)) ⊎ ((i ≢ j) × (f j ≡ inside))
which f i p j e = elim (ℕ_discrete i j) [
  | yes same ↦ inl (same, sym (update_self f i p) ∙ ap (update f i p) same ∙ e)
  | no ne ↦ inr (ne, sym (update_ne f p ne) ∙ e)
]

module _ {s : Lock} (x : IsExclusive s) (i : ℕ) where
  -- A CPU that stays outside changes nothing for the others.
  aside :
      {p : Place}
      → p ≢ inside
      → s.place i ≢ inside
      → IsExclusive (record s { place = update s.place i p })
  aside {p} out was_out = record {
    taken = λ j e. elim (which s.place i p j e) [
      | inl (_, now) ↦ absurd (out now)
      | inr (_, e') ↦ x.taken j e'
    ];
    one = λ j k e f. elim (which s.place i p j e) [
      | inl (_, now) ↦ absurd (out now)
      | inr (_, e') ↦ elim (which s.place i p k f) [
        | inl (_, now) ↦ absurd (out now)
        | inr (_, f') ↦ x.one j k e' f'
      ]
    ];
    owned = λ on.
        let (j, e) = x.owned on in
        (j, update_ne s.place p (λ same. was_out (ap s.place same ∙ e)) ∙ e);
  }

  enters :
      s.spinlock ≡ false → IsExclusive (record { spinlock = true; place = update s.place i inside })
  enters free =
      let nobody : (j : ℕ) → s.place j ≢ inside = λ j e. true-ne-false (sym (x.taken j e) ∙ free) in
      record {
        taken = λ j e. refl;
        one = λ j k e f. elim (which s.place i inside j e) [
          | inr (_, e') ↦ absurd (nobody j e')
          | inl (ij, _) ↦ elim (which s.place i inside k f) [
            | inr (_, f') ↦ absurd (nobody k f')
            | inl (ik, _) ↦ sym ij ∙ ik
          ]
        ];
        owned = λ on. (i, update_self s.place i inside);
      }

  leaves :
      s.place i ≡ inside
      → IsExclusive (record { spinlock = false; place = update s.place i outside })
  leaves was_in = record {
    taken = λ j e. elim (which s.place i outside j e) [
      | inl (_, now) ↦ absurd (outside-ne-inside now)
      | inr (ne, e') ↦ absurd (ne (x.one i j was_in e'))
    ];
    one = λ j k e f. elim (which s.place i outside j e) [
      | inl (_, now) ↦ absurd (outside-ne-inside now)
      | inr (ne, e') ↦ absurd (ne (x.one i j was_in e'))
    ];
    owned = λ on. absurd (true-ne-false (sym on));
  }

  attempt-IsExclusive :
      s.place i ≡ waiting → IsExclusive (attempted s i (spinlock_test_acq false s.spinlock))
  unfolding spinlock_test_acq compare_and_swap
  attempt-IsExclusive e = elim (Bool-cases s.spinlock) [
    | inl on ↦ rw on (
        subst IsExclusive
          (ap (λ (b : Bool). record { spinlock = b; place = update s.place i waiting }) on)
          (aside waiting-ne-inside (λ now. waiting-ne-inside (sym e ∙ now))))
    | inr off ↦ rw off (enters off)
  ]

  leave-IsExclusive : s.place i ≡ inside → IsExclusive (released s i (spinlock_release s.spinlock))
  unfolding spinlock_release compare_and_swap
  leave-IsExclusive e = rw (x.taken i e) (leaves e)

idle-IsExclusive : IsExclusive idle
idle-IsExclusive = record {
  taken = λ i e. absurd (outside-ne-inside e);
  one = λ i j e f. absurd (outside-ne-inside e);
  owned = λ on. absurd (true-ne-false (sym on));
}

Step-IsExclusive : {s t : Lock} → IsExclusive s → Step s t → IsExclusive t
Step-IsExclusive x (call i e) = aside x i waiting-ne-inside (λ now. outside-ne-inside (sym e ∙ now))
Step-IsExclusive x (attempt i e) = attempt-IsExclusive x i e
Step-IsExclusive x (leave i e) = leave-IsExclusive x i e

-- In every interleaving of the atomic operations of any number of CPUs that acquire and release
-- one spinlock, starting with the lock free, at most one CPU is between its acquire and its
-- release, the lock is taken while one is, and a lock that is taken has such a CPU.
pub Reaches-IsExclusive : {s : Lock} → Reaches idle s → IsExclusive s
Reaches-IsExclusive start = idle-IsExclusive
Reaches-IsExclusive (after path step) = Step-IsExclusive (Reaches-IsExclusive path) step
