-- ===== src/Stack/Tests.antt =====
-- A stack with room for two items of eight bytes.
use cynix.Base.{◌+◌, ◌≡◌, refl, arith}
use cynix.Base.Run.{panics, stack_underflow}
use cynix.Stack.{Stacked, stack_push, stack_pop}
use cynix.Stack.Order.{Holds, Pushed, stack_push-Pushed, stack_pop-empty}

abbrev demo : Stacked
demo = record {
  stack = record { base = 0x1000; top = 0x1010; type_size = 8; cur_offset = 16 };
  byte = λ a. 0;
}

demo-Holds : Holds demo.stack 0 2
demo-Holds = record {
  sized = omega arith;
  end = refl;
  below = omega arith;
  filled = refl;
  within = omega arith;
}

stack_push-Pushed_example : Pushed demo 0 2 (λ k. 10 + k) (stack_push (λ k. 10 + k) demo)
stack_push-Pushed_example = stack_push-Pushed demo demo-Holds (λ k. 10 + k)

stack_pop-empty_example : stack_pop demo ≡ panics stack_underflow
stack_pop-empty_example = stack_pop-empty demo demo-Holds refl
