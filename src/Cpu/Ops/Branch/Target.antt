-- ===== src/Cpu/Ops/Branch/Target.antt =====
-- Where a branch goes (src/cpu/65816-ops.c and the relative modes of src/cpu/65816-util.c).
use ce.Base.{ℕ, ◌+◌, ◌-◌, ◌*◌, ◌%◌, ◌^◌, ◌≡◌, true, false, ltb, u8, if◌then◌else◌, arith}
use ce.Cpu.State.{Machine}
use ce.Cpu.Registers.{cpu_update_pc, cpu_get_immd_byte, cpu_get_effective_pc, cpu_get_pbr}
use ce.Cpu.Address.{get_relative8}
use ce.Cpu.Valid.{IsValid}
use ce.Cpu.Ops.Branch.{branch_if, i_bra}

-- The operand byte of the instruction at the program counter.
abbrev pub operand_byte : Machine → ℕ
operand_byte s = u8 (s.mem.val (s.cpu.pbr * 2 ^ 16 + (s.cpu.pc + 1) % 2 ^ 16))

-- PC + 2 plus the operand as a signed byte, modulo 2 ^ 16.
abbrev pub branch_target : Machine → ℕ
branch_target s =
    if ltb (operand_byte s) 128
    then (s.cpu.pc + 2 + operand_byte s) % 2 ^ 16
    else (s.cpu.pc + 2 + operand_byte s + 2 ^ 16 - 2 ^ 8) % 2 ^ 16

-- A conditional branch that is not taken goes to the next instruction; one that is taken, and BRA,
-- goes to PC + 2 plus the signed operand, modulo 2 ^ 16. A conditional branch that is taken keeps
-- the program bank, the stack pointer and the bytes of the memory.
pub branch-target :
    (s : Machine)
    → IsValid s.cpu
    → let f = (branch_if false s).1 in
      let t = (branch_if true s).1 in
      let a = (i_bra s).1 in
      (f.cpu.pc ≡ (s.cpu.pc + 2) % 2 ^ 16)
      × (t.cpu.pc ≡ branch_target s)
      × (a.cpu.pc ≡ branch_target s)
      × (t.cpu.pbr ≡ s.cpu.pbr)
      × (t.cpu.sp ≡ s.cpu.sp)
      × (t.mem.val ≡ s.mem.val)
unfolding branch_if i_bra get_relative8 cpu_update_pc cpu_get_immd_byte cpu_get_effective_pc
    cpu_get_pbr
branch-target s v = ground arith
