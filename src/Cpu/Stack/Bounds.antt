-- ===== src/Cpu/Stack/Bounds.antt =====
-- Where the stack functions of src/cpu/65816-util.c write.
use ce.Base.{ℕ, ◌/◌, ◌^◌, ◌≤◌, ◌<◌, ◌≡◌, ◌⊎◌, true, false, Bool, arith}
use ce.Cpu.State.{Machine, enable}
use ce.Cpu.Memory.{update}
use ce.Cpu.Stack.{stack_push_byte, stack_push_word}
use ce.Cpu.Stack.RoundTrip.{StackOk}

-- In emulation mode a byte or a word pushed with the page restriction changes no byte outside
-- page 1 of bank 0.
pub push-page_one :
    (v : ℕ) (acc : Bool) (s : Machine) (a : ℕ)
    → StackOk s.cpu
    → s.cpu.p_e ≡ true
    → ((a < 0x100) ⊎ (0x200 ≤ a))
    → ((stack_push_byte v acc s).1.mem.val a ≡ s.mem.val a)
      × ((stack_push_word v enable acc s).1.mem.val a ≡ s.mem.val a)
unfolding stack_push_byte stack_push_word update
push-page_one v acc s a ok e out = ground arith

-- In native mode a word pushed at stack pointer 0 puts its high byte at address 0x010000, in bank
-- 1, and leaves the byte at address 0 as it was.
pub push_word-leaves_bank :
    (v : ℕ) (acc : Bool) (s : Machine)
    → s.cpu.p_e ≡ false
    → s.cpu.sp ≡ 0
    → v < 2 ^ 16
    → let s' = (stack_push_word v enable acc s).1 in
      (s'.mem.val 0x10000 ≡ v / 2 ^ 8) × (s'.mem.val 0 ≡ s.mem.val 0)
unfolding stack_push_word update
push_word-leaves_bank v acc s e z h = ground arith
