-- ===== src/Cpu/Ops/Push.antt =====
-- src/cpu/65816-ops.c: the instructions that push.
use ce.Base.{ℕ, ◌+◌, ◌*◌, ◌^◌, u8, u16, bit, Bool, if◌then◌else◌}
use ce.Cpu.State.{disable, enable}
use ce.Cpu.Monad.{Act, ◌>>=◌, ◌>>◌, get, add_cycles}
use ce.Cpu.Memory.{addr_add_val_bank_wrap, get_mem_byte}
use ce.Cpu.Registers.{cpu_update_pc, cpu_get_sr, cpu_get_immd_byte, cpu_get_immd_word}
use ce.Cpu.Stack.{stack_push_byte, stack_push_word}
use ce.Cpu.Ops.Common.{acc8, idx8, dl_cycle}

unfoldable pub i_pea : Act
i_pea = do
  s ← get
  v ← cpu_get_immd_word s.setacc
  stack_push_word v disable s.setacc
  add_cycles 5
  cpu_update_pc 3

unfoldable pub i_pei : Act
i_pei = do
  s ← get
  offset ← cpu_get_immd_byte s.setacc
  let addr_dp = addr_add_val_bank_wrap s.d offset
  lo ← get_mem_byte addr_dp s.setacc
  hi ← get_mem_byte (addr_add_val_bank_wrap addr_dp 1) s.setacc
  stack_push_word (lo + hi * 2 ^ 8) disable s.setacc
  cpu_update_pc 2
  add_cycles 6
  dl_cycle

-- The displacement is an int16_t, and is extended to 32 bits.
unfoldable pub i_per : Act
i_per = do
  s ← get
  v ← cpu_get_immd_word s.setacc
  let displacement = if bit v 15 then v + 0xffff0000 else v
  cpu_update_pc 3
  r ← get
  stack_push_word (u16 (addr_add_val_bank_wrap r.pc displacement)) disable s.setacc
  add_cycles 6

-- A register of 8 or 16 bits, then one byte of operand code.
unfoldable pub push_register : Bool → ℕ → Act
push_register short v = do
  s ← get
  if short
      then (do stack_push_byte (u8 v) s.setacc; add_cycles 3)
      else (do stack_push_word v enable s.setacc; add_cycles 4)
  cpu_update_pc 1

unfoldable pub i_pha : Act
i_pha = do s ← get; push_register (acc8 s) s.c

unfoldable pub i_phx : Act
i_phx = do s ← get; push_register (idx8 s) s.x

unfoldable pub i_phy : Act
i_phy = do s ← get; push_register (idx8 s) s.y

-- What PHB, PHK and PHP share.
unfoldable pub push_byte_op : ℕ → Act
push_byte_op v = do s ← get; stack_push_byte v s.setacc; add_cycles 3; cpu_update_pc 1

unfoldable pub i_phb : Act
unfolding push_byte_op
i_phb = do s ← get; push_byte_op s.dbr

unfoldable pub i_phk : Act
unfolding push_byte_op
i_phk = do s ← get; push_byte_op s.pbr

unfoldable pub i_php : Act
unfolding push_byte_op
i_php = do s ← get; push_byte_op (cpu_get_sr s)

unfoldable pub i_phd : Act
i_phd = do s ← get; stack_push_word s.d disable s.setacc; add_cycles 4; cpu_update_pc 1
