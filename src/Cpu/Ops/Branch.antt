-- ===== src/Cpu/Ops/Branch.antt =====
-- src/cpu/65816-ops.c: the relative branches.
pub mod Target
use ce.Base.{ℕ, u16, high_byte, Bool, ◌==◌, ◌&&◌, not, if◌then◌else◌}
use ce.Cpu.State.{Cpu}
use ce.Cpu.Monad.{Act, ◌>>=◌, ◌>>◌, get, when, add_cycles}
use ce.Cpu.Set
use ce.Cpu.Registers.{cpu_update_pc}
use ce.Cpu.Address.{get_relative8, get_relative16}

-- `P.E && ((new_PC & 0xff00) != (PC & 0xff00))`
abbrev pub branch_crosses : Cpu → ℕ → Bool
branch_crosses s new_pc = s.p_e && not (high_byte new_pc == high_byte s.pc)

-- The body of the eight conditional branches; only the flag differs.
unfoldable pub branch_if : Bool → Act
branch_if taken = do
  s ← get
  if taken
      then (do
        new_pc ← get_relative8 s.setacc
        add_cycles 1
        when (branch_crosses s new_pc) (add_cycles 1)
        Set.pc new_pc)
      else cpu_update_pc 2
  add_cycles 2

unfoldable pub i_bcc : Act
i_bcc = do s ← get; branch_if (not s.p_c)

unfoldable pub i_bcs : Act
i_bcs = do s ← get; branch_if s.p_c

unfoldable pub i_beq : Act
i_beq = do s ← get; branch_if s.p_z

unfoldable pub i_bmi : Act
i_bmi = do s ← get; branch_if s.p_n

unfoldable pub i_bne : Act
i_bne = do s ← get; branch_if (not s.p_z)

unfoldable pub i_bpl : Act
i_bpl = do s ← get; branch_if (not s.p_n)

unfoldable pub i_bvc : Act
i_bvc = do s ← get; branch_if (not s.p_v)

unfoldable pub i_bvs : Act
i_bvs = do s ← get; branch_if s.p_v

unfoldable pub i_bra : Act
i_bra = do
  s ← get
  new_pc ← get_relative8 s.setacc
  add_cycles 3
  when (branch_crosses s (u16 new_pc)) (add_cycles 1)
  Set.pc new_pc

unfoldable pub i_brl : Act
i_brl = do s ← get; new_pc ← get_relative16 s.setacc; Set.pc new_pc; add_cycles 4
