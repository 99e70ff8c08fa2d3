-- ===== src/Cpu/Registers.antt =====
-- src/cpu/65816-util.c: the status register, the stack pointer, the program counter and the operand
-- bytes of the current instruction.
pub mod Status
use ce.Base.{ℕ, ◌+◌, ◌*◌, ◌%◌, ◌^◌, Bool, true, of_bool, bit, if◌then◌else◌}
use ce.Cpu.State.{Cpu}
use ce.Cpu.Monad.{M, Act, ◌>>=◌, return, get, modify}
use ce.Cpu.Set
use ce.Cpu.Memory.{get_mem_byte, addr_add_val_bank_wrap}

unfoldable pub cpu_update_pc : ℕ → Act
cpu_update_pc offset = do s ← get; Set.pc (s.pc + offset)

-- The first byte of the bit-field struct `P`, its fields from the lowest bit up.
unfoldable pub cpu_get_sr : Cpu → ℕ
cpu_get_sr r =
    of_bool r.p_c
    + of_bool r.p_z * 2
    + of_bool r.p_i * 4
    + of_bool r.p_d * 8
    + of_bool r.p_xb * 16
    + of_bool r.p_m * 32
    + of_bool r.p_v * 64
    + of_bool r.p_n * 128

unfoldable pub cpu_set_sr : ℕ → Act
cpu_set_sr v = modify (λ r. record r {
  p_c = bit v 0;
  p_z = bit v 1;
  p_i = bit v 2;
  p_d = bit v 3;
  p_xb = bit v 4;
  p_m = bit v 5;
  p_v = bit v 6;
  p_n = bit v 7;
})

-- `(addr & 0xff) | 0x0100` in emulation mode.
unfoldable pub cpu_set_sp : ℕ → Act
cpu_set_sp addr = do s ← get; Set.sp (if s.p_e then addr % 2 ^ 8 + 0x100 else addr)

unfoldable pub cpu_get_pbr : Cpu → ℕ
cpu_get_pbr r = r.pbr * 2 ^ 16

unfoldable pub cpu_get_dbr : Cpu → ℕ
cpu_get_dbr r = r.dbr * 2 ^ 16

unfoldable pub cpu_get_effective_pc : Cpu → ℕ
unfolding cpu_get_pbr
cpu_get_effective_pc r = cpu_get_pbr r + r.pc

unfoldable pub cpu_get_immd_byte : Bool → M ℕ
unfolding cpu_get_effective_pc addr_add_val_bank_wrap get_mem_byte
cpu_get_immd_byte setacc = do
  s ← get
  get_mem_byte (addr_add_val_bank_wrap (cpu_get_effective_pc s) 1) setacc

unfoldable pub cpu_get_immd_word : Bool → M ℕ
unfolding cpu_get_effective_pc addr_add_val_bank_wrap get_mem_byte
cpu_get_immd_word setacc = do
  s ← get
  let addr = addr_add_val_bank_wrap (cpu_get_effective_pc s) 1
  val ← get_mem_byte addr setacc
  hi ← get_mem_byte (addr_add_val_bank_wrap addr 1) setacc
  return (val + hi * 2 ^ 8)

unfoldable pub cpu_get_immd_long : Bool → M ℕ
unfolding cpu_get_effective_pc addr_add_val_bank_wrap get_mem_byte
cpu_get_immd_long setacc = do
  s ← get
  let addr = addr_add_val_bank_wrap (cpu_get_effective_pc s) 1
  val ← get_mem_byte addr setacc
  let addr' = addr_add_val_bank_wrap addr 1
  hi ← get_mem_byte addr' setacc
  bank ← get_mem_byte (addr_add_val_bank_wrap addr' 1) setacc
  return (val + hi * 2 ^ 8 + bank * 2 ^ 16)

unfoldable pub cpu_crash : Act
cpu_crash = modify (λ r. record r { p_crash = true })
