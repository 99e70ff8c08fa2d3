-- ===== src/Cpu/Stack/RoundTrip.antt =====
-- What is pushed is popped: the stack functions of src/cpu/65816-util.c undo one another.
use ce.Base.{ℕ, ◌^◌, ◌≤◌, ◌<◌, ◌≡◌, true, Bool, arith}
use ce.Cpu.State.{Cpu, Machine, EmulStack, enable, disable}
use ce.Cpu.Memory.{update}
use ce.Cpu.Stack.{
  stack_push_byte, stack_push_word, stack_push24, stack_pop_byte, stack_pop_word, stack_pop24,
}

-- The stack pointer is a uint16_t, and lies in page 1 in emulation mode.
pub record StackOk (r : Cpu) : Type 0 where
  pub fits : r.sp < 2 ^ 16
  pub paged : r.p_e ≡ true → (0x100 ≤ r.sp) × (r.sp < 0x200)

-- A byte that is pushed is the next byte popped, and the processor is as before the push, in both
-- modes and wherever the stack pointer wraps.
pub pop_byte-push_byte :
    (v : ℕ) (mode : EmulStack) (push_acc pop_acc : Bool) (s : Machine)
    → StackOk s.cpu
    → v < 2 ^ 8
    → let s' = (stack_push_byte v push_acc s).1 in
      ((stack_pop_byte mode pop_acc s').0 ≡ v) × ((stack_pop_byte mode pop_acc s').1.cpu ≡ s.cpu)
unfolding stack_push_byte stack_pop_byte update
pop_byte-push_byte v mode push_acc pop_acc s ok h = ground arith

-- A word pushed with the page restriction of emulation mode is the next word popped with it, and
-- the processor is as before the push, in both modes and wherever the stack pointer wraps.
pub pop_word-push_word :
    (v : ℕ) (push_acc pop_acc : Bool) (s : Machine)
    → StackOk s.cpu
    → v < 2 ^ 16
    → let s' = (stack_push_word v enable push_acc s).1 in
      ((stack_pop_word enable pop_acc s').0 ≡ v)
      × ((stack_pop_word enable pop_acc s').1.cpu ≡ s.cpu)
unfolding stack_push_word stack_pop_word update
pop_word-push_word v push_acc pop_acc s ok h = ground arith

-- Without the restriction a word is popped as it was pushed if, in emulation mode, the stack
-- pointer is at least 0x102, so that it does not leave the page's bottom.
pub pop_word-push_word_free :
    (v : ℕ) (push_acc pop_acc : Bool) (s : Machine)
    → StackOk s.cpu
    → v < 2 ^ 16
    → (s.cpu.p_e ≡ true → 0x102 ≤ s.cpu.sp)
    → let s' = (stack_push_word v disable push_acc s).1 in
      ((stack_pop_word disable pop_acc s').0 ≡ v)
      × ((stack_pop_word disable pop_acc s').1.cpu ≡ s.cpu)
unfolding stack_push_word stack_pop_word update
pop_word-push_word_free v push_acc pop_acc s ok h room = ground arith

-- Three bytes that are pushed are popped, and the processor is as before the push, in native mode
-- wherever the stack pointer is, and in emulation mode if it is at least 0x103.
pub pop24-push24 :
    (v : ℕ) (push_acc pop_acc : Bool) (s : Machine)
    → StackOk s.cpu
    → v < 2 ^ 24
    → (s.cpu.p_e ≡ true → 0x103 ≤ s.cpu.sp)
    → let s' = (stack_push24 v push_acc s).1 in
      ((stack_pop24 pop_acc s').0 ≡ v) × ((stack_pop24 pop_acc s').1.cpu ≡ s.cpu)
unfolding stack_push24 stack_pop24 update
pop24-push24 v push_acc pop_acc s ok h room = ground arith
