-- ===== src/Cpu/Ops/Status.antt =====
-- src/cpu/65816-ops.c: the instructions that change the status register.
use ce.Base.{◌+◌, ◌-◌, low_byte, true, false, if◌then◌else◌, bit_and, bit_or}
use ce.Cpu.Monad.{Act, ◌>>=◌, ◌>>◌, get, add_cycles}
use ce.Cpu.Set
use ce.Cpu.Memory.{addr_add_val_bank_wrap, get_mem_byte}
use ce.Cpu.Registers.{cpu_update_pc, cpu_get_sr, cpu_set_sr, cpu_get_immd_byte}
use ce.Cpu.Ops.Jump.{narrow_index}

-- A handler of one byte and two cycles.
abbrev pub one_byte : Act → Act
one_byte act = do act; cpu_update_pc 1; add_cycles 2

unfoldable pub i_clc : Act
i_clc = one_byte (Set.p_c false)

unfoldable pub i_cld : Act
i_cld = one_byte (Set.p_d false)

unfoldable pub i_cli : Act
i_cli = one_byte (Set.p_i false)

unfoldable pub i_clv : Act
i_clv = one_byte (Set.p_v false)

unfoldable pub i_sec : Act
i_sec = one_byte (Set.p_c true)

unfoldable pub i_sed : Act
i_sed = one_byte (Set.p_d true)

unfoldable pub i_sei : Act
i_sei = one_byte (Set.p_i true)

-- `~val` of a byte is `255 - val`.
unfoldable pub i_rep : Act
i_rep = do
  s ← get
  val ← cpu_get_immd_byte s.setacc
  if s.p_e
      then cpu_set_sr (bit_and (cpu_get_sr s) (bit_or (255 - val) 0x30))
      else (do cpu_set_sr (bit_and (cpu_get_sr s) (255 - val)); narrow_index)
  cpu_update_pc 2
  add_cycles 3

-- The operand is read at `PC + 1` of bank 0.
unfoldable pub i_sep : Act
i_sep = do
  s ← get
  val ← get_mem_byte (addr_add_val_bank_wrap s.pc 1) s.setacc
  if s.p_e
      then cpu_set_sr (bit_or (cpu_get_sr s) (bit_and val 0xcf))
      else (do cpu_set_sr (bit_or (cpu_get_sr s) val); narrow_index)
  cpu_update_pc 2
  add_cycles 3

unfoldable pub i_xce : Act
i_xce = do
  s ← get
  Set.p_e s.p_c
  Set.p_c s.p_e
  if s.p_c
      then (do
        Set.p_m true
        Set.x (low_byte s.x)
        Set.y (low_byte s.y)
        Set.sp (low_byte s.sp + 0x0100))
      else (do Set.p_m true; Set.p_xb true)
  cpu_update_pc 1
  add_cycles 2
