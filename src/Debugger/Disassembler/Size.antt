-- ===== src/Debugger/Disassembler/Size.antt =====
-- src/debugger/disassembler.c: the size that _get_opcode returns.
use ce.Base.{
  ℕ, ◌==◌, Bool, false, ◌||◌, ◌&&◌, not, if◌then◌else◌, Option, none, some, List, ◌++◌, get_elem?,
}
use ce.Cpu.State.{Cpu, Machine, mode_index, immd}
use ce.Cpu.Memory.{byte_at}
use ce.Cpu.Registers.{cpu_get_effective_pc}
use ce.Debugger.Disassembler.{Opcode, Register, no_register, reg_a, reg_x, addr_fmt_size}
use ce.Debugger.Disassembler.Low.{opcodes_00}
use ce.Debugger.Disassembler.MidLow.{opcodes_40}
use ce.Debugger.Disassembler.MidHigh.{opcodes_80}
use ce.Debugger.Disassembler.High.{opcodes_c0}

abbrev pub opcode_table : List Opcode
opcode_table = opcodes_00 ++ opcodes_40 ++ opcodes_80 ++ opcodes_c0

unfoldable pub opcode_at : ℕ → Option Opcode
opcode_at code = get_elem? opcode_table code

-- Whether an immediate operand for the register has 16 bits.
unfoldable pub wide_immediate : Cpu → Register → Bool
wide_immediate cpu no_register = false
wide_immediate cpu reg_a = not (cpu.p_e || not cpu.p_e && cpu.p_m)
wide_immediate cpu reg_x = not (cpu.p_e || not cpu.p_e && cpu.p_xb)

abbrev pub opcode_size : Cpu → Opcode → ℕ
opcode_size cpu op =
    if mode_index op.addr_mode == mode_index immd && wide_immediate cpu op.reg
    then 3
    else addr_fmt_size op.addr_mode

-- The size of the instruction at the program counter; `none` is outside of the table.
unfoldable pub get_opcode_size : Machine → Option ℕ
unfolding opcode_at wide_immediate addr_fmt_size
get_opcode_size s = elim (opcode_at (byte_at s.mem (cpu_get_effective_pc s.cpu))) [
  | none ↦ none
  | some op ↦ some (opcode_size s.cpu op)
]
