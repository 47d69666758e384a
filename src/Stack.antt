-- ===== src/Stack.antt =====
-- kernel/src/lib/stack.c: stacks of items of a fixed size that grow downwards.
pub mod Order
pub mod New
mod Tests
use cynix.Base.{
  ℕ, zero, suc, ◌+◌, ◌-◌, ◌*◌, Bool, ltb, ◌==◌, if◌then◌else◌, add64, sub64, mul64, update,
}
use cynix.Base.Run.{Cmd, stack_overflow, stack_underflow, gets, modify, pure, fail, ◌>>=◌, ◌>>◌}
use cynix.Machine.{Machine}
use cynix.Alloc.{alloc}

pub record Stack : Type 0 where
  pub base : ℕ
  pub top : ℕ
  pub type_size : ℕ
  pub cur_offset : ℕ

-- A stack and the memory, by bytes.
pub record Stacked : Type 0 where
  pub stack : Stack
  pub byte : ℕ → ℕ

-- The members that `stack_new` sets in the struct, which it allocates first: 32 bytes.
unfoldable pub stack_new : (type_size nmemb : ℕ) → Cmd Machine Stack
unfolding alloc
stack_new type_size nmemb = do
  alloc 32
  base ← alloc (mul64 type_size nmemb)
  pure (record {
    base = base;
    top = add64 base (mul64 type_size nmemb);
    type_size = type_size;
    cur_offset = mul64 type_size nmemb;
  })

-- `memcpy` of `n` bytes from `item`, from byte `i` on
unfoldable pub put_bytes : (byte : ℕ → ℕ) (dest : ℕ) (item : ℕ → ℕ) (i n : ℕ) → ℕ → ℕ
put_bytes byte dest item i zero = byte
put_bytes byte dest item i (suc n) =
    put_bytes (update byte (add64 dest i) (item i)) dest item (i + 1) n

unfoldable pub stack_push : (item : ℕ → ℕ) → Cmd Stacked (Unit {0})
unfolding put_bytes
stack_push item = do
  s ← gets (λ t. t.stack)
  if ltb s.cur_offset s.type_size then fail stack_overflow else pure tt
  let offset = s.cur_offset - s.type_size
  modify (λ t. record t { stack = record s { cur_offset = offset } })
  modify (λ t. record t { byte = put_bytes t.byte (add64 s.base offset) item 0 s.type_size })

-- The bytes that are copied to the caller's item are returned.
unfoldable pub stack_pop : Cmd Stacked (ℕ → ℕ)
stack_pop = do
  s ← gets (λ t. t.stack)
  if add64 s.base s.cur_offset == s.top then fail stack_underflow else pure tt
  item ← gets (λ t i. t.byte (add64 (add64 s.base s.cur_offset) i))
  modify (λ t. record t { stack = record s { cur_offset = add64 s.cur_offset s.type_size } })
  pure item
