-- ===== src/Cpu/Ops/Pull.antt =====
-- src/cpu/65816-ops.c: the instructions that pull.
pub mod RoundTrip
use ce.Base.{◌+◌, high_byte, if◌then◌else◌, bit_or}
use ce.Cpu.State.{disable, enable}
use ce.Cpu.Monad.{Act, ◌>>=◌, ◌>>◌, get, add_cycles}
use ce.Cpu.Set
use ce.Cpu.Registers.{cpu_update_pc, cpu_set_sr}
use ce.Cpu.Stack.{stack_pop_byte, stack_pop_word}
use ce.Cpu.Ops.Jump.{narrow_index}
use ce.Cpu.Ops.Common.{acc8, idx8, set_nz8, set_nz16}

unfoldable pub i_pla : Act
i_pla = do
  s ← get
  if acc8 s
      then (do
        val ← stack_pop_byte enable s.setacc
        let v = high_byte s.c + val
        Set.c v
        add_cycles 4
        set_nz8 v)
      else (do v ← stack_pop_word enable s.setacc; Set.c v; add_cycles 5; set_nz16 v)
  cpu_update_pc 1

unfoldable pub i_plb : Act
i_plb = do
  s ← get
  v ← stack_pop_byte disable s.setacc
  Set.dbr v
  add_cycles 4
  set_nz8 v
  cpu_update_pc 1

unfoldable pub i_pld : Act
i_pld = do
  s ← get
  v ← stack_pop_word disable s.setacc
  Set.d v
  add_cycles 5
  set_nz16 v
  cpu_update_pc 1

unfoldable pub i_plp : Act
i_plp = do
  s ← get
  val ← stack_pop_byte enable s.setacc
  if s.p_e then cpu_set_sr (bit_or 0x30 val) else (do cpu_set_sr val; narrow_index)
  add_cycles 4
  cpu_update_pc 1

unfoldable pub i_plx : Act
i_plx = do
  s ← get
  if idx8 s
      then (do v ← stack_pop_byte enable s.setacc; Set.x v; add_cycles 4; set_nz8 v)
      else (do v ← stack_pop_word enable s.setacc; Set.x v; add_cycles 5; set_nz16 v)
  cpu_update_pc 1

unfoldable pub i_ply : Act
i_ply = do
  s ← get
  if idx8 s
      then (do v ← stack_pop_byte enable s.setacc; Set.y v; add_cycles 4; set_nz8 v)
      else (do v ← stack_pop_word enable s.setacc; Set.y v; add_cycles 5; set_nz16 v)
  cpu_update_pc 1
