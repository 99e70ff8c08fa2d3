-- ===== src/Cpu/Ops/Interrupt.antt =====
-- src/cpu/65816-ops.c: software interrupts, stopping and waiting, and the block moves.
pub mod Return
pub mod Copy
pub mod Move
use ce.Base.{ℕ, ◌+◌, ◌*◌, ◌%◌, ◌^◌, true, false, ◌==◌, ◌||◌, if◌then◌else◌, bit_and, bit_or}
use ce.Cpu.State.{enable}
use ce.Cpu.Monad.{Act, ◌>>=◌, ◌>>◌, get, modify, when, add_cycles}
use ce.Cpu.Set
use ce.Cpu.Memory.{addr_add_val_bank_wrap, get_mem_byte, get_mem_word, set_mem_byte}
use ce.Cpu.Registers.{cpu_update_pc, cpu_get_sr, cpu_get_effective_pc, cpu_get_immd_byte}
use ce.Cpu.Stack.{stack_push_byte, stack_push_word, stack_push24}
use ce.Cpu.Address.{get_immediate}

-- `cpu->PC` from the two bytes of a vector, in bank 0.
unfoldable pub load_vector : ℕ → Act
load_vector vector = do
  s ← get
  lo ← get_mem_byte vector s.setacc
  hi ← get_mem_byte (vector + 1) s.setacc
  Set.pc (lo + hi * 2 ^ 8)
  Set.pbr 0

-- What BRK, COP, NMI and IRQ share: push the return address and the status (`emu_sr` of it in
-- emulation mode), and load the vector of the mode.
unfoldable pub enter_handler : (ℕ → ℕ) → ℕ → ℕ → Act
enter_handler emu_sr emu_vector native_vector = do
  s ← get
  if s.p_e
      then (do
        stack_push_word s.pc enable s.setacc
        stack_push_byte (emu_sr (cpu_get_sr s)) s.setacc
        load_vector emu_vector
        add_cycles 7)
      else (do
        stack_push24 (cpu_get_effective_pc s) s.setacc
        stack_push_byte (cpu_get_sr s) s.setacc
        load_vector native_vector
        add_cycles 8)
  Set.p_d false

-- CPU_VEC_…
abbrev pub vec_native_cop : ℕ
vec_native_cop = 0xffe4

abbrev pub vec_native_brk : ℕ
vec_native_brk = 0xffe6

abbrev pub vec_native_nmi : ℕ
vec_native_nmi = 0xffea

abbrev pub vec_native_irq : ℕ
vec_native_irq = 0xffee

abbrev pub vec_emu_cop : ℕ
vec_emu_cop = 0xfff4

abbrev pub vec_emu_nmi : ℕ
vec_emu_nmi = 0xfffa

abbrev pub vec_reset : ℕ
vec_reset = 0xfffc

abbrev pub vec_emu_irq : ℕ
vec_emu_irq = 0xfffe

unfoldable pub i_brk : Act
i_brk = do
  cpu_update_pc 2
  enter_handler (λ v. bit_or v 0x10) vec_emu_irq vec_native_brk
  Set.p_i true

-- With `cop_vect_enable` the word at the vector plus twice the operand is the target.
unfoldable pub i_cop : Act
i_cop = do
  s ← get
  operand ← cpu_get_immd_byte s.setacc
  cpu_update_pc 2
  enter_handler (λ v. bit_and v 0xef) vec_emu_cop vec_native_cop
  Set.p_i true
  r ← get
  when r.cop_vect_enable
      (do target ← get_mem_word (r.pc + operand * 2 % 2 ^ 8) false; Set.pc target)

unfoldable pub i_stp : Act
i_stp = do add_cycles 3; modify (λ r. record r { p_stp = true })

unfoldable pub i_wai : Act
i_wai = do s ← get; when (s.p_nmi || s.p_irq) (do add_cycles 3; cpu_update_pc 1)

unfoldable pub i_wdm : Act
i_wdm = do cpu_update_pc 2; add_cycles 2

-- One byte of a block move; `step` is 1 for MVN and -1 for MVP, modulo 2 ^ 16.
unfoldable pub move_byte : ℕ → Act
move_byte step = do
  s ← get
  operand_addr ← get_immediate s.setacc
  dst_bank ← get_mem_byte operand_addr s.setacc
  src_bank ← get_mem_byte (addr_add_val_bank_wrap operand_addr 1) s.setacc
  tmp ← get_mem_byte (src_bank * 2 ^ 16 + s.x) s.setacc
  set_mem_byte (dst_bank * 2 ^ 16 + s.y) tmp s.setacc
  Set.y (s.y + step)
  Set.x (s.x + step)
  Set.dbr dst_bank
  Set.c (s.c + 0xffff)
  r ← get
  when (r.c == 0xffff) (cpu_update_pc 3)
  add_cycles 7

unfoldable pub i_mvn : Act
unfolding move_byte
i_mvn = move_byte 1

unfoldable pub i_mvp : Act
unfolding move_byte
i_mvp = move_byte 0xffff
