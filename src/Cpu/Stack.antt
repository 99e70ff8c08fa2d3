-- ===== src/Cpu/Stack.antt =====
-- src/cpu/65816-util.c: pushes and pops of the processor's stack.
pub mod RoundTrip
pub mod Bounds
use ce.Base.{ℕ, ◌+◌, ◌-◌, ◌*◌, ◌/◌, ◌%◌, ◌^◌, u16, neg32, Bool, true, false, ◌&&◌}
use ce.Base.{if◌then◌else◌}
use ce.Cpu.State.{EmulStack}
use ce.Cpu.Monad.{M, Act, ◌>>=◌, ◌>>◌, return, get}
use ce.Cpu.Memory.{addr_add_val_bank_wrap, get_mem_byte, get_mem_word, set_mem_byte, set_mem_word}
use ce.Cpu.Registers.{cpu_set_sp}

-- The enumerator as a truth value.
abbrev pub is_enable : EmulStack → Bool
is_enable EmulStack.disable = false
is_enable EmulStack.enable = true

-- `(uint16_t)(cpu->SP - n)`
abbrev pub sub16 : ℕ → ℕ → ℕ
sub16 a n = u16 (a + 2 ^ 16 - n)

unfoldable pub stack_push_byte : ℕ → Bool → Act
unfolding set_mem_byte cpu_set_sp
stack_push_byte byte setacc = do s ← get; set_mem_byte s.sp byte setacc; cpu_set_sp (sub16 s.sp 1)

push_word_paged : ℕ → Bool → Act
unfolding set_mem_byte cpu_set_sp
push_word_paged word setacc = do
  s ← get
  set_mem_byte s.sp (word / 2 ^ 8) setacc
  cpu_set_sp (sub16 s.sp 1)
  s' ← get
  set_mem_byte s'.sp (word % 2 ^ 8) setacc
  cpu_set_sp (sub16 s'.sp 1)

push_word_linear : ℕ → Bool → Act
unfolding set_mem_word cpu_set_sp addr_add_val_bank_wrap
push_word_linear word setacc = do
  s ← get
  set_mem_word (addr_add_val_bank_wrap s.sp (neg32 1)) word setacc
  cpu_set_sp (sub16 s.sp 2)

unfoldable pub stack_push_word : ℕ → EmulStack → Bool → Act
unfolding push_word_paged push_word_linear
stack_push_word word emulation_stack setacc = do
  s ← get
  if s.p_e && is_enable emulation_stack
      then push_word_paged word setacc
      else push_word_linear word setacc

unfoldable pub stack_push24 : ℕ → Bool → Act
unfolding set_mem_byte set_mem_word cpu_set_sp addr_add_val_bank_wrap
stack_push24 v setacc = do
  s ← get
  set_mem_byte s.sp (v / 2 ^ 16 % 2 ^ 8) setacc
  set_mem_word (addr_add_val_bank_wrap s.sp (neg32 2)) (v % 2 ^ 16) setacc
  cpu_set_sp (sub16 s.sp 3)

unfoldable pub stack_pop_byte : EmulStack → Bool → M ℕ
unfolding get_mem_byte cpu_set_sp
stack_pop_byte emulation_stack setacc = do
  s ← get
  cpu_set_sp (u16 (s.sp + 1))
  s' ← get
  get_mem_byte s'.sp setacc

pop_word_paged : Bool → M ℕ
unfolding get_mem_byte cpu_set_sp
pop_word_paged setacc = do
  s ← get
  cpu_set_sp (u16 (s.sp + 1))
  s' ← get
  lo ← get_mem_byte s'.sp setacc
  cpu_set_sp (u16 (s'.sp + 1))
  s'' ← get
  hi ← get_mem_byte s''.sp setacc
  return (lo + hi * 2 ^ 8)

pop_word_linear : Bool → M ℕ
unfolding get_mem_word cpu_set_sp addr_add_val_bank_wrap
pop_word_linear setacc = do
  s ← get
  word ← get_mem_word (addr_add_val_bank_wrap s.sp 1) setacc
  cpu_set_sp (u16 (s.sp + 2))
  return word

unfoldable pub stack_pop_word : EmulStack → Bool → M ℕ
unfolding pop_word_paged pop_word_linear
stack_pop_word emulation_stack setacc = do
  s ← get
  if s.p_e && is_enable emulation_stack then pop_word_paged setacc else pop_word_linear setacc

unfoldable pub stack_pop24 : Bool → M ℕ
unfolding get_mem_byte get_mem_word cpu_set_sp addr_add_val_bank_wrap
stack_pop24 setacc = do
  s ← get
  lo ← get_mem_word (addr_add_val_bank_wrap s.sp 1) setacc
  bank ← get_mem_byte (addr_add_val_bank_wrap s.sp 3) setacc
  cpu_set_sp (u16 (s.sp + 3))
  return (lo + bank * 2 ^ 16)
