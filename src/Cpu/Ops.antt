-- ===== src/Cpu/Ops.antt =====
-- src/cpu/65816-ops.c: one action for each instruction handler, grouped by what the handlers do.
pub mod Common
pub mod Load
pub mod Store
pub mod Arith
pub mod Logic
pub mod Compare
pub mod Shift
pub mod Count
pub mod Branch
pub mod Jump
pub mod Push
pub mod Pull
pub mod Status
pub mod Transfer
pub mod Interrupt
