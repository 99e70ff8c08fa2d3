-- ===== src/Cpu/Decode.antt =====
-- src/cpu/65816.c: the switch of stepCPU as a table, and its handlers.
pub mod Total
pub mod Low
pub mod MidLow
pub mod MidHigh
pub mod High
use ce.Base.{ℕ, Option, none, some, List, ◌++◌, get_elem?}
use ce.Cpu.Instr.{Instr}
use Low.{decode_00}
use MidLow.{decode_40}
use MidHigh.{decode_80}
use High.{decode_c0}

-- The table has an entry for each of the 256 opcodes; `none` is the default case.
unfoldable pub decode : ℕ → Option Instr
decode opcode = get_elem? (decode_00 ++ decode_40 ++ decode_80 ++ decode_c0) opcode
