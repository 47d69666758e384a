-- ===== src/Stack/Order.antt =====
-- Last in, first out, and the bounds of a stack.
use native.Mathlib.Decide.{ℕ_discrete, dec_lt}
use native.Mathlib.Nat.{mul-le-mul_right}
use cynix.Base.{
  ℕ, zero, suc, ◌+◌, ◌-◌, ◌*◌, ◌≤◌, ◌<◌, ◌≡◌, refl, ap, ◌∙◌, ◌≢◌, true, false, ltb, ◌==◌, add64,
  update, update_self, update_ne, word_mod, arith,
}
use cynix.Base.Run.{Run, ok, panics, stack_overflow, stack_underflow}
use cynix.Stack.{Stack, Stacked, put_bytes, stack_push, stack_pop}

-- The stack holds `count` of at most `nmemb` items.
pub record Holds (s : Stack) (count nmemb : ℕ) : Type 0 where
  pub sized : 0 < s.type_size
  pub end : s.top ≡ s.base + nmemb * s.type_size
  pub below : s.top < word_mod
  pub filled : s.cur_offset + count * s.type_size ≡ nmemb * s.type_size
  pub within : count ≤ nmemb

module _ (dest : ℕ) (item : ℕ → ℕ) where
  put_bytes-out :
      (byte : ℕ → ℕ) (a i n : ℕ)
      → dest + i + n < word_mod
      → ((k : ℕ) → i ≤ k → k < i + n → a ≢ dest + k)
      → put_bytes byte dest item i n a ≡ byte a
  unfolding put_bytes
  put_bytes-out byte a i zero fits out = refl
  put_bytes-out byte a i (suc n) fits out =
      put_bytes-out (update byte (add64 dest i) (item i)) a (i + 1) n (omega arith)
        (λ k p q. out k (omega arith) (omega arith))
      ∙ update_ne byte (item i) (λ e. out i (omega arith) (omega arith) (omega arith))

  put_bytes-in :
      (byte : ℕ → ℕ) (k i n : ℕ)
      → dest + i + n < word_mod
      → i ≤ k
      → k < i + n
      → put_bytes byte dest item i n (dest + k) ≡ item k
  unfolding put_bytes
  put_bytes-in byte k i zero fits lo hi = absurd (omega arith)
  put_bytes-in byte k i (suc n) fits lo hi =
      let w = update byte (add64 dest i) (item i) in
      elim (ℕ_discrete k i) [
        | yes same ↦ rw same (
            put_bytes-out w (dest + i) (i + 1) n (omega arith) (λ j p q e. absurd (omega arith))
            ∙ ap w (omega arith)
            ∙ update_self byte (add64 dest i) (item i))
        | no ne ↦ put_bytes-in w k (i + 1) n (omega arith) (omega arith) (omega arith)
      ]

-- What a push comes to: the item is on top, and a pop gives it back and leaves the stack as it was;
-- or the stack was full.
pub data Pushed (t : Stacked) (count nmemb : ℕ) (item : ℕ → ℕ) (r : Run Stacked (Unit {0}))
    : Type 0 where
  on_top :
      (t' t'' : Stacked) (popped : ℕ → ℕ)
      → r ≡ ok tt t'
      → Holds t'.stack (count + 1) nmemb
      → stack_pop t' ≡ ok popped t''
      → ((k : ℕ) → k < t.stack.type_size → popped k ≡ item k)
      → t''.stack ≡ t.stack
      → ((a : ℕ) → t.stack.base + t.stack.cur_offset ≤ a → t''.byte a ≡ t.byte a)
      → Pushed t count nmemb item r
  full : count ≡ nmemb → r ≡ panics stack_overflow → Pushed t count nmemb item r

module _ (t : Stacked) {count nmemb : ℕ} (h : Holds t.stack count nmemb) where
  abbrev size : ℕ
  size = t.stack.type_size

  abbrev offset : ℕ
  offset = t.stack.cur_offset - size

  abbrev pushed : (ℕ → ℕ) → Stacked
  pushed item = record {
    stack = record t.stack { cur_offset = offset };
    byte = put_bytes t.byte (t.stack.base + offset) item 0 size;
  }

  pushes-full : (item : ℕ → ℕ) → count ≡ nmemb → stack_push item t ≡ panics stack_overflow
  unfolding stack_push
  pushes-full item e =
      let empty : t.stack.cur_offset ≡ 0 = omega (arith, h.filled, ap (λ (c : ℕ). c * size) e) in
      let test : ltb t.stack.cur_offset size ≡ true = ground (arith, h.sized) in rw test

  module _ (room : count < nmemb) where
    one_more : count * size + size ≤ nmemb * size
    one_more =
        let next : (count + 1) * size ≡ count * size + size = ground arith in
        let le : (count + 1) * size ≤ nmemb * size = mul-le-mul_right size (omega arith) in
        omega arith

    fits : size ≤ t.stack.cur_offset
    fits = omega (arith, one_more, h.filled)

    high : t.stack.base + t.stack.cur_offset < word_mod
    high = omega (arith, h.filled, h.end, h.below)

    pushes : (item : ℕ → ℕ) → stack_push item t ≡ ok tt (pushed item)
    unfolding stack_push
    pushes item =
        let test : ltb t.stack.cur_offset size ≡ false = ground (arith, fits) in
        let at : add64 t.stack.base offset ≡ t.stack.base + offset = omega (arith, high) in
        rw (test, at)

    pushed-Holds : (item : ℕ → ℕ) → Holds (pushed item).stack (count + 1) nmemb
    pushed-Holds item = record {
      sized = h.sized;
      end = h.end;
      below = h.below;
      filled =
          let next : (count + 1) * size ≡ count * size + size = ground arith in
          omega (arith, next, fits, h.filled);
      within = omega arith;
    }

    abbrev after : (ℕ → ℕ) → Stacked
    after item = record {
      stack = t.stack;
      byte = put_bytes t.byte (t.stack.base + offset) item 0 size;
    }

    abbrev top_item : (ℕ → ℕ) → ℕ → ℕ
    top_item item k = (pushed item).byte (add64 (t.stack.base + offset) k)

    pops : (item : ℕ → ℕ) → stack_pop (pushed item) ≡ ok (top_item item) (after item)
    unfolding stack_pop
    pops item =
        let at : add64 t.stack.base offset ≡ t.stack.base + offset = omega (arith, high) in
        let test : (t.stack.base + offset == t.stack.top) ≡ false =
          ground (arith, h.end, h.filled, fits, h.sized) in
        let back : add64 offset size ≡ t.stack.cur_offset = omega (arith, fits, high) in
        rw (at, test, back)

    pub gives_back : (item : ℕ → ℕ) → Pushed t count nmemb item (stack_push item t)
    gives_back item =
        on_top (pushed item) (after item) (top_item item) (pushes item) (pushed-Holds item)
          (pops item)
          (λ k lt.
            ap (pushed item).byte {y = t.stack.base + offset + k} (omega (arith, high, fits))
            ∙ put_bytes-in (t.stack.base + offset) item t.byte k 0 size (omega (arith, high, fits))
                (omega arith) (omega arith))
          refl
          (λ a le.
            put_bytes-out (t.stack.base + offset) item t.byte a 0 size (omega (arith, high, fits))
              (λ k p q e. absurd (omega (arith, fits))))

  -- On a stack that holds some of at most `nmemb` items of a size above 0, in memory that does not
  -- wrap, `stack_push` panics with an overflow if the stack is full; otherwise the stack holds one
  -- item more, and `stack_pop` then gives back the item's bytes, restores the stack, and leaves
  -- the bytes from the old top on as they were.
  pub stack_push-Pushed : (item : ℕ → ℕ) → Pushed t count nmemb item (stack_push item t)
  stack_push-Pushed item = elim (dec_lt count nmemb) [
    | yes room ↦ gives_back room item
    | no not_room ↦
        let all : count ≡ nmemb = omega (arith, h.within) in full all (pushes-full item all)
  ]

  pub stack_pop-empty : count ≡ 0 → stack_pop t ≡ panics stack_underflow
  unfolding stack_pop
  stack_pop-empty e =
      let none_left : count * size ≡ 0 = omega (arith, ap (λ (c : ℕ). c * size) e) in
      let test : (add64 t.stack.base t.stack.cur_offset == t.stack.top) ≡ true =
        ground (arith, h.end, h.filled, h.below, none_left) in
      rw test
