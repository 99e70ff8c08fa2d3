-- ===== src/Cpu/Ops/Jump.antt =====
-- src/cpu/65816-ops.c: jumps, calls and returns.
pub mod Return
use ce.Base.{ℕ, ◌/◌, ◌%◌, ◌^◌, u16, low_byte, if◌then◌else◌, bit_and, bit_or}
use ce.Cpu.State.{AddrMode, absl, is_mode, enable}
use ce.Cpu.Monad.{Act, ◌>>=◌, ◌>>◌, get, when, add_cycles}
use ce.Cpu.Set
use ce.Cpu.Memory.{addr_add_val_bank_wrap}
use ce.Cpu.Registers.{cpu_get_sr, cpu_set_sr, cpu_get_effective_pc}
use ce.Cpu.Stack.{stack_push_word, stack_push24, stack_pop_byte, stack_pop_word, stack_pop24}

unfoldable pub i_jmp : ℕ → AddrMode → ℕ → Act
i_jmp cycles mode addr = do
  when (is_mode mode absl) (Set.pbr (addr / 2 ^ 16 % 2 ^ 8))
  Set.pc (addr % 2 ^ 16)
  add_cycles cycles

unfoldable pub i_jsr : ℕ → ℕ → Act
i_jsr cycles addr = do
  s ← get
  stack_push_word (u16 (addr_add_val_bank_wrap s.pc 2)) enable s.setacc
  Set.pc addr
  add_cycles cycles

unfoldable pub i_jsl : ℕ → ℕ → Act
i_jsl cycles addr = do
  s ← get
  stack_push24 (addr_add_val_bank_wrap (cpu_get_effective_pc s) 3) s.setacc
  Set.pbr (addr / 2 ^ 16 % 2 ^ 8)
  Set.pc (addr % 2 ^ 16)
  add_cycles cycles

-- `X` and `Y` lose their high bytes when the index registers are 8 bits wide.
unfoldable pub narrow_index : Act
narrow_index = do s ← get; when s.p_xb (do Set.x (low_byte s.x); Set.y (low_byte s.y))

-- The rest of RTI once the status byte is pulled, in emulation mode and in native mode.
unfoldable pub rti_return : Act
rti_return = do s ← get; pc' ← stack_pop_word enable s.setacc; Set.pc pc'; add_cycles 6

unfoldable pub rti_return_long : Act
rti_return_long = do
  narrow_index
  s ← get
  v ← stack_pop24 s.setacc
  Set.pbr (v / 2 ^ 16 % 2 ^ 8)
  Set.pc (v % 2 ^ 16)
  add_cycles 7

unfoldable pub i_rti : Act
unfolding rti_return rti_return_long
i_rti = do
  s ← get
  val ← stack_pop_byte enable s.setacc
  if s.p_e
      then (do cpu_set_sr (bit_or (bit_and (cpu_get_sr s) 0x30) (bit_and val 0xcf)); rti_return)
      else (do cpu_set_sr val; rti_return_long)

unfoldable pub i_rtl : Act
i_rtl = do
  s ← get
  addr ← stack_pop24 s.setacc
  Set.pc (addr_add_val_bank_wrap (addr % 2 ^ 16) 1)
  Set.pbr (addr / 2 ^ 16 % 2 ^ 8)
  add_cycles 6

unfoldable pub i_rts : Act
i_rts = do
  s ← get
  addr ← stack_pop_word enable s.setacc
  Set.pc (addr_add_val_bank_wrap addr 1)
  add_cycles 6
