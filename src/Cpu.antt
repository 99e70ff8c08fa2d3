-- ===== src/Cpu.antt =====
-- cpu: the processor core.
pub mod Advance
pub mod Text
pub mod State
pub mod Monad
pub mod Set
pub mod Memory
pub mod Registers
pub mod Address
pub mod Stack
pub mod Ops
pub mod Instr
pub mod Decode
pub mod Execute
pub mod Step
pub mod Valid
