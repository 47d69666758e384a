-- ===== src/Term/Output.antt =====
-- What printing leaves: the screen with the text, and locks and interrupt flag as they were.
use cynix.Base.{
  ℕ, ◌≡◌, ◌≢◌, ==_false, refl, sym, ◌∙◌, ◌⊎◌, inl, inr, true, false, Option, List, [], ◌∷◌, length,
  update, update_self, update_ne, update_all,
}
use cynix.Base.Run.{ok, zoom, >>=-ok}
use cynix.Spinlock.{spinlock_acquire, spinlock_release, compare_and_swap, spinlock_test_acq}
use cynix.Term.{
  draw, debug_done, normal_done, Flanterm, Terms, is_done, term_init, term_write, put_chars,
  vprintf,
}

module _ {Screen : Type 0} (flanterm : Flanterm Screen) where
  -- The screen after the characters are written one by one
  abbrev pub drawn : (ctx : ℕ) → List ℕ → Screen → Screen
  drawn ctx [] s = s
  drawn ctx (c ∷ cs) s = drawn ctx cs (flanterm.write ctx (c ∷ []) s)

  -- Terminals that can print: opened, the first one with a context, and none locked
  pub record IsIdle (t : Terms Screen) : Type 0 where
    pub opened : (t.term_init_done ≡ debug_done) ⊎ (t.term_init_done ≡ normal_done)
    pub unlocked : (i : ℕ) → t.spinlock i ≡ false
    pub context : t.ft_ctx 0 ≢ 0

  abbrev pub after : Terms Screen → (terminal : ℕ) → Screen → Terms Screen
  after t terminal s = record t {
    spinlock = update (update t.spinlock terminal true) terminal false;
    screen = s;
  }

  module _ (t : Terms Screen) (h : IsIdle t) where
    term_write-idle :
        (bytes : List ℕ)
        → term_write flanterm 0 bytes t
          ≡ ok tt (after t 0 (flanterm.write (t.ft_ctx 0) bytes t.screen))
    unfolding term_write draw spinlock_acquire spinlock_release spinlock_test_acq compare_and_swap
    term_write-idle bytes = elim h.opened [
      | inl e ↦ rw (
        term_write,
        e,
        zoom,
        h.unlocked 0,
        update_self t.spinlock 0 true,
        ==_false (t.ft_ctx 0) 0 h.context,
      )
      | inr e ↦ rw (
        term_write,
        e,
        zoom,
        h.unlocked 0,
        update_self t.spinlock 0 true,
        ==_false (t.ft_ctx 0) 0 h.context,
      )
    ]

    after-IsIdle : (terminal : ℕ) (s : Screen) → IsIdle (after t terminal s)
    after-IsIdle terminal s = record {
      opened = h.opened;
      context = h.context;
      unlocked =
          update_all (λ i b. b ≡ false) (update t.spinlock terminal true) terminal false refl
            (λ i ne. update_ne t.spinlock true ne ∙ h.unlocked i);
    }

  -- What printing leaves as it was: the interrupt flag, the contexts, and idle terminals
  pub record Printed (t u : Terms Screen) (text : List ℕ) : Type 0 where
    pub idle : IsIdle u
    pub screen : u.screen ≡ drawn (t.ft_ctx 0) text t.screen
    pub flag : u.interrupts ≡ t.interrupts
    pub contexts : u.ft_ctx ≡ t.ft_ctx
    pub printf : u.printf_lock ≡ t.printf_lock

  put_chars-Printed :
      (cs : List ℕ) (t : Terms Screen)
      → IsIdle t
      → (u : Terms Screen) × (put_chars flanterm cs t ≡ ok tt u) × Printed t u cs
  unfolding put_chars
  put_chars-Printed [] t h =
      (t, refl, record { idle = h; screen = refl; flag = refl; contexts = refl; printf = refl })
  put_chars-Printed (c ∷ cs) t h =
      let t' = after t 0 (flanterm.write (t.ft_ctx 0) (c ∷ []) t.screen) in
      let (u, e, p) =
        put_chars-Printed cs t'
          (after-IsIdle t h 0 (flanterm.write (t.ft_ctx 0) (c ∷ []) t.screen)) in
      (
        u,
        >>=-ok (term_write flanterm 0 (c ∷ [])) (λ _. put_chars flanterm cs) {s = t}
              (term_write-idle t h (c ∷ []))
            ∙ e,
        record {
          idle = p.idle;
          screen = p.screen;
          flag = p.flag;
          contexts = p.contexts;
          printf = p.printf;
        },
      )

  opened-is_done : (t : Terms Screen) → IsIdle t → is_done flanterm true t.term_init_done ≡ true
  unfolding is_done
  opened-is_done t h = elim h.opened [ inl o ↦ rw o refl | inr o ↦ rw o refl ]

  vprintf-put_chars :
      (response : Option (List ℕ)) (text : List ℕ) (t u : Terms Screen)
      → IsIdle t
      → t.printf_lock ≡ false
      → put_chars flanterm text (record t { interrupts = false; printf_lock = true }) ≡ ok tt u
      → u.printf_lock ≡ true
      → vprintf flanterm response text t
        ≡ ok (length text) (record u { printf_lock = false; interrupts = t.interrupts })
  unfolding vprintf term_init spinlock_acquire spinlock_release spinlock_test_acq compare_and_swap
  vprintf-put_chars response text t u h free e held =
      rw (vprintf, opened-is_done t h, zoom, free, e, held)

  -- Printing on terminals that are open and idle, with the lock of `printf` free and from any
  -- interrupt flag, returns the number of characters, and leaves the screen with the text, the flag
  -- and the lock as they were and the terminals idle.
  pub vprintf-Printed :
      (response : Option (List ℕ)) (text : List ℕ) (t : Terms Screen)
      → IsIdle t
      → t.printf_lock ≡ false
      → (u : Terms Screen) × (vprintf flanterm response text t ≡ ok (length text) u)
        × Printed t u text
  vprintf-Printed response text t h free =
      let (u, e, p) =
        put_chars-Printed text (record t { interrupts = false; printf_lock = true })
          (record { opened = h.opened; unlocked = h.unlocked; context = h.context }) in
      (
        record u { printf_lock = false; interrupts = t.interrupts },
        vprintf-put_chars response text t u h free e p.printf,
        record {
          idle = record {
            opened = p.idle.opened;
            unlocked = p.idle.unlocked;
            context = p.idle.context;
          };
          screen = p.screen;
          flag = refl;
          contexts = p.contexts;
          printf = sym free;
        },
      )
