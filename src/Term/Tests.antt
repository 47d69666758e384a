-- ===== src/Term/Tests.antt =====
-- Runs of printing on two framebuffers, with a screen that keeps what it is told.
use cynix.Base.{
  ℕ, ◌+◌, ◌*◌, ◌≡◌, refl, Bool, true, false, Option, some, List, [], ◌∷◌, if◌then◌else◌,
}
use cynix.Base.Run.{Run, ok, panics, spins, trap, pure, modify}
use cynix.Spinlock.{spinlock_acquire, spinlock_release, spinlock_test_acq, compare_and_swap}
use cynix.Term.{
  draw, open_term, not_done, debug_done, Flanterm, Terms, take_framebuffers, read_framebuffers,
  fb_init, is_done, close_debug, open_terms, term_init, term_write, put_chars, vprintf,
}

-- The contexts written to, with their characters, the last one first
abbrev Screen : Type 0
Screen = List (ℕ × List ℕ)

abbrev demo_flanterm : Flanterm Screen
demo_flanterm = record {
  fb_init = λ heap fb. pure (fb + (if heap then 1 else 0));
  deinit = λ ctx. modify (λ s. (ctx, []) ∷ s);
  write = λ ctx bytes s. (ctx, bytes) ∷ s;
}

abbrev fresh : Terms Screen
fresh = record {
  interrupts = true;
  screen = [];
  fb_init_done = false;
  fb_count = 0;
  fbs = λ _. 0;
  term_init_done = not_done;
  term_count = 0;
  spinlock = λ _. false;
  ft_ctx = λ _. 0;
  printf_lock = false;
}

abbrev two : Option (List ℕ)
two = some (100 ∷ 200 ∷ [])

abbrev seen : {A : Type 0} → Run (Terms Screen) A → Bool × ℕ × Screen
seen (ok _ t) = (t.interrupts, t.term_count, t.screen)
seen (panics _) = (false, 0, [])
seen spins = (false, 0, [])
seen trap = (false, 0, [])

-- The first print opens one terminal without a heap.
print_run :
    seen (vprintf demo_flanterm two (72 ∷ 105 ∷ []) fresh)
    ≡ (true, 1, (100, 105 ∷ []) ∷ (100, 72 ∷ []) ∷ [])
unfolding vprintf take_framebuffers read_framebuffers fb_init is_done close_debug open_terms
    term_init draw open_term term_write put_chars spinlock_acquire spinlock_release
    spinlock_test_acq compare_and_swap
print_run = refl

-- The full start closes that one and opens both.
start_run :
    seen (
      term_init demo_flanterm two false (record fresh {
        term_init_done = debug_done;
        fb_init_done = true;
        fb_count = 2;
        fbs = λ i. 100 * (i + 1);
        term_count = 1;
        ft_ctx = λ _. 100;
      }))
    ≡ (true, 2, (100, []) ∷ [])
unfolding fb_init is_done close_debug open_term open_terms term_init
start_run = refl
