-- ===== src/Term/Init.antt =====
-- What `term_init` keeps.
use cynix.Base.{
  update, ℕ, zero, suc, ◌-◌, ◌≡◌, refl, Bool, true, false, Option, none, some, List, [], ◌∷◌, ◌==◌,
  if◌then◌else◌,
}
use cynix.Base.Outcome.{Outcome, returned, Outcome-and_then, Outcome-then_at, Outcome-zoom}
use cynix.Base.Run.{Reason, Cmd, and_then, pure, ◌>>◌}
use cynix.Term.{
  Terms, Flanterm, take_framebuffers, read_framebuffers, fb_init, is_done, close_debug, on_screen,
  open_term, open_terms, term_init, fbs_max, terms_max,
}

-- The interrupt flag is `on`, and what flanterm works on is as `Q` says.
abbrev pub Stays : {Screen : Type 0} → (on : Bool) → (Q : Screen → Type 0) → Terms Screen → Type 0
Stays on Q t = (t.interrupts ≡ on) × Q t.screen

module _ {Screen : Type 0} (flanterm : Flanterm Screen) (Fails : Reason → Type 0) (on : Bool)
    (Q : Screen → Type 0) where
  -- The command keeps that, or fails for an allowed reason.
  abbrev Quiet : Cmd (Terms Screen) (Unit {0}) → Type 0
  Quiet c = (t : Terms Screen) → Stays on Q t → Outcome Fails (λ _ t'. Stays on Q t') (c t)

  at_once : Quiet (pure tt)
  at_once t e = returned tt t refl e

  next : {c d : Cmd (Terms Screen) (Unit {0})} → Quiet c → Quiet d → Quiet (c >> d)
  next p q t e = Outcome-and_then (p t e) λ _ t' e'. q t' e'

  on_test :
      {c d : Cmd (Terms Screen) (Unit {0})} (f : Terms Screen → Bool)
      → Quiet c
      → Quiet d
      → Quiet (λ t. (if f t then c else d) t)
  on_test {c} {d} f p q t e = either (f t)
    where
      either : (b : Bool) → Outcome Fails (λ _ t'. Stays on Q t') ((if b then c else d) t)
      either true = p t e
      either false = q t e

  take_keeps : (fbs : List ℕ) → Quiet (take_framebuffers flanterm fbs)
  unfolding take_framebuffers
  take_keeps [] = at_once
  take_keeps (fb ∷ rest) =
      λ t e. on_test (λ _. t.fb_count == fbs_max) at_once (λ _ e. take_keeps rest _ e) t e

  read_keeps : (response : Option (List ℕ)) → Quiet (read_framebuffers flanterm response)
  unfolding read_framebuffers
  read_keeps none = at_once
  read_keeps (some fbs) = next (take_keeps fbs) (λ t e. at_once _ e)

  fb_init_keeps : (response : Option (List ℕ)) → Quiet (fb_init flanterm response)
  unfolding fb_init
  fb_init_keeps response = on_test (λ t. t.fb_init_done) at_once (λ t e. read_keeps response _ e)

  module _
      (opens : (heap : Bool) (fb : ℕ) (screen : Screen)
        → Q screen
        → Outcome Fails (λ _. Q) (flanterm.fb_init heap fb screen))
      (closes : (ctx : ℕ) (screen : Screen)
        → Q screen
        → Outcome Fails (λ _. Q) (flanterm.deinit ctx screen)) where
    -- flanterm changes the screen alone.
    on_screen_keeps :
        {A : Type 0} (c : Cmd Screen A) (f : A → Cmd (Terms Screen) (Unit {0})) (t : Terms Screen)
        → t.interrupts ≡ on
        → Outcome Fails (λ _. Q) (c t.screen)
        → ((a : A) → Quiet (f a))
        → Outcome Fails (λ _ t'. Stays on Q t') (and_then (on_screen flanterm c t) f)
    on_screen_keeps c f t e q after =
        Outcome-then_at f
          (Outcome-zoom (λ (t : Terms Screen). t.screen) (λ screen t. record t { screen = screen })
            c {s = t} q)
          λ a screen q'. after a (record t { screen = screen }) (e, q')

    close_keeps : Quiet (close_debug flanterm)
    unfolding close_debug
    close_keeps =
        on_test (λ t. t.term_count == 0) at_once
          λ t (e, q).
            on_screen_keeps (flanterm.deinit (t.ft_ctx 0)) _ t e (closes (t.ft_ctx 0) t.screen q)
              λ _ t e. at_once _ e

    open_keeps_one : (with_heap : Bool) → Quiet (open_term flanterm with_heap)
    unfolding open_term
    open_keeps_one with_heap t (e, q) =
        on_screen_keeps (flanterm.fb_init with_heap (t.fbs t.term_count)) _
          (record t { spinlock = update t.spinlock t.term_count false }) e
          (opens with_heap (t.fbs t.term_count) t.screen q) λ _ t e. at_once _ e

    open_keeps : (with_heap : Bool) (limit n : ℕ) → Quiet (open_terms flanterm with_heap limit n)
    unfolding open_terms
    open_keeps with_heap limit zero = at_once
    open_keeps with_heap limit (suc n) =
        on_test (λ t. t.term_count == limit) at_once
          (next (open_keeps_one with_heap) (open_keeps with_heap limit n))

    pub term_init_keeps :
        (response : Option (List ℕ)) (debug : Bool) → Quiet (term_init flanterm response debug)
    unfolding term_init
    term_init_keeps response debug =
        on_test (λ t. is_done flanterm debug t.term_init_done) at_once
          (next (fb_init_keeps response) (
            next close_keeps λ t e.
              next
                (open_keeps (if debug then false else true) (if debug then 1 else terms_max)
                  (t.fb_count - t.term_count))
                (λ t e. at_once _ e) t e))
