-- ===== src/Hw.antt =====
-- src/hw: the devices beside the processor.
pub mod CircBuf
pub mod Uart
