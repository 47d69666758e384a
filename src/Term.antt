-- ===== src/Term.antt =====
-- kernel/src/devices/fb/fb.c, devices/term/term.c and `vprintf` of lib/printf.c.
pub mod Init
pub mod Output
mod Tests
use cynix.Base.{
  ℕ, zero, suc, ◌+◌, ◌-◌, ◌<◌, ◌≡◌, Bool, true, false, Option, none, some, List, [], ◌∷◌, length,
  ltb, ◌==◌, if◌then◌else◌, update,
}
use cynix.Base.Run.{trap, Cmd, ok, gets, modify, pure, zoom, ◌>>=◌, ◌>>◌}
use cynix.Spinlock.{spinlock_acquire, spinlock_release}

pub data Stage : Type 0 where
  not_done debug_done normal_done : Stage

-- What the kernel uses of flanterm: contexts are opened, closed and written on. `Screen` is all that
-- flanterm works on: what is shown, and the memory that it takes with the `alloc` and `free` it is
-- given. A context is its address, or 0.
pub record Flanterm (Screen : Type 0) : Type 0 where
  pub fb_init : (with_heap : Bool) (fb : ℕ) → Cmd Screen ℕ
  pub deinit : (ctx : ℕ) → Cmd Screen (Unit {0})
  pub write : (ctx : ℕ) (bytes : List ℕ) → Screen → Screen

-- The statics of the three files, the interrupt flag and the screen
pub record Terms (Screen : Type 0) : Type 0 where
  pub interrupts : Bool
  pub screen : Screen
  pub fb_init_done : Bool
  pub fb_count : ℕ
  pub fbs : ℕ → ℕ
  pub term_init_done : Stage
  pub term_count : ℕ
  pub spinlock : ℕ → Bool
  pub ft_ctx : ℕ → ℕ
  pub printf_lock : Bool

-- `FBS_MAX` and `TERMS_MAX`
abbrev pub fbs_max : ℕ
fbs_max = 16

abbrev pub terms_max : ℕ
terms_max = 16

module _ {Screen : Type 0} (flanterm : Flanterm Screen) where
  -- The loop of `fb_init` over the framebuffers that the bootloader lists
  unfoldable pub take_framebuffers : List ℕ → Cmd (Terms Screen) (Unit {0})
  take_framebuffers [] = pure tt
  take_framebuffers (fb ∷ rest) = do
    count ← gets (λ t. t.fb_count)
    if count == fbs_max then pure tt else (do
      modify (λ t. record t { fbs = update t.fbs count fb; fb_count = count + 1 })
      take_framebuffers rest)

  unfoldable pub read_framebuffers : Option (List ℕ) → Cmd (Terms Screen) (Unit {0})
  unfolding take_framebuffers
  read_framebuffers none = pure tt
  read_framebuffers (some fbs) = do
    take_framebuffers fbs
    modify (λ t. record t { fb_init_done = true })

  unfoldable pub fb_init : (response : Option (List ℕ)) → Cmd (Terms Screen) (Unit {0})
  unfolding read_framebuffers
  fb_init response = do
    done ← gets (λ t. t.fb_init_done)
    if done
        then pure tt
        else (do modify (λ t. record t { fb_count = 0 }); read_framebuffers response)

  -- Whether `term_init` returns at once
  unfoldable pub is_done : (debug : Bool) → Stage → Bool
  is_done true not_done = false
  is_done true _ = true
  is_done false normal_done = true
  is_done false _ = false

  abbrev on_screen : {A : Type 0} → Cmd Screen A → Cmd (Terms Screen) A
  on_screen = zoom (λ t. t.screen) (λ screen t. record t { screen = screen })

  unfoldable pub close_debug : Cmd (Terms Screen) (Unit {0})
  close_debug = do
    count ← gets (λ t. t.term_count)
    if count == 0 then pure tt else (do
      ctx ← gets (λ t. t.ft_ctx 0)
      on_screen (flanterm.deinit ctx)
      modify (λ t. record t { term_count = 0 }))

  unfoldable open_term : (with_heap : Bool) → Cmd (Terms Screen) (Unit {0})
  open_term with_heap = do
    count ← gets (λ t. t.term_count)
    modify (λ t. record t { spinlock = update t.spinlock count false })
    fb ← gets (λ t. t.fbs count)
    opened ← on_screen (flanterm.fb_init with_heap fb)
    modify (λ t. record t { ft_ctx = update t.ft_ctx count opened; term_count = count + 1 })

  -- The loop of `term_init`, with `fb_count - term_count` rounds left
  unfoldable pub open_terms :
      (with_heap : Bool) (terms_limit rounds : ℕ) → Cmd (Terms Screen) (Unit {0})
  unfolding open_term
  open_terms with_heap terms_limit zero = pure tt
  open_terms with_heap terms_limit (suc n) = do
    count ← gets (λ t. t.term_count)
    if count == terms_limit
        then pure tt
        else (do open_term with_heap; open_terms with_heap terms_limit n)

  unfoldable pub term_init :
      (response : Option (List ℕ)) (debug : Bool) → Cmd (Terms Screen) (Unit {0})
  unfolding fb_init is_done close_debug open_terms
  term_init response debug = do
    stage ← gets (λ t. t.term_init_done)
    if is_done debug stage then pure tt else (do
      fb_init response
      close_debug
      rounds ← gets (λ t. t.fb_count - t.term_count)
      open_terms (if debug then false else true) (if debug then 1 else terms_max) rounds
      modify (λ t. record t { term_init_done = if debug then debug_done else normal_done }))

  abbrev toggle : Bool → Cmd (Terms Screen) Bool
  toggle state = do
    ret ← gets (λ t. t.interrupts)
    modify (λ t. record t { interrupts = state })
    pure ret

  abbrev on_term : {A : Type 0} → (terminal : ℕ) → Cmd Bool A → Cmd (Terms Screen) A
  on_term terminal =
      zoom (λ t. t.spinlock terminal)
        (λ held t. record t { spinlock = update t.spinlock terminal held })

  abbrev acquire_term : (terminal : ℕ) → Cmd (Terms Screen) (Unit {0})
  acquire_term terminal t = on_term terminal (spinlock_acquire t.interrupts) t

  abbrev is_open : Stage → Bool
  is_open not_done = false
  is_open debug_done = true
  is_open normal_done = true

  -- `flanterm_write` reads the context: a null pointer is an exception of the CPU.
  unfoldable draw : (terminal : ℕ) (bytes : List ℕ) → Cmd (Terms Screen) (Unit {0})
  draw terminal bytes = do
    ctx ← gets (λ t. t.ft_ctx terminal)
    if ctx == 0
        then (λ _. trap)
        else modify (λ t. record t { screen = flanterm.write ctx bytes t.screen })

  unfoldable pub term_write : (terminal : ℕ) (bytes : List ℕ) → Cmd (Terms Screen) (Unit {0})
  unfolding draw spinlock_acquire spinlock_release
  term_write terminal bytes = do
    stage ← gets (λ t. t.term_init_done)
    if is_open stage
        then (do
          old_int_state ← toggle false
          acquire_term terminal
          draw terminal bytes
          on_term terminal spinlock_release
          toggle old_int_state
          pure tt)
        else pure tt

  -- `debug_putchar` for each character
  unfoldable pub put_chars : List ℕ → Cmd (Terms Screen) (Unit {0})
  unfolding term_write
  put_chars [] = pure tt
  put_chars (c ∷ cs) = term_write 0 (c ∷ []) >> put_chars cs

  abbrev on_printf_lock : {A : Type 0} → Cmd Bool A → Cmd (Terms Screen) A
  on_printf_lock = zoom (λ t. t.printf_lock) (λ held t. record t { printf_lock = held })

  abbrev acquire_printf : Cmd (Terms Screen) (Unit {0})
  acquire_printf t = on_printf_lock (spinlock_acquire t.interrupts) t

  -- `text` is what nanoprintf makes of the format and its arguments.
  unfoldable pub vprintf : (response : Option (List ℕ)) (text : List ℕ) → Cmd (Terms Screen) ℕ
  unfolding term_init put_chars spinlock_acquire spinlock_release
  vprintf response text = do
    term_init response true
    old_int_state ← toggle false
    acquire_printf
    put_chars text
    on_printf_lock spinlock_release
    toggle old_int_state
    pure (length text)
