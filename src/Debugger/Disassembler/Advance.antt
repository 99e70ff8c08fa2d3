-- ===== src/Debugger/Disassembler/Advance.antt =====
-- The sizes of the disassembler (src/debugger/disassembler.c) against how far the processor goes
-- (src/cpu/65816-ops.c).
use ce.Cpu.State.{Cpu}
