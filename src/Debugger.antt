-- ===== src/Debugger.antt =====
-- src/debugger: the symbol table and the disassembler.
pub mod Symbols
pub mod Disassembler
pub mod Load
pub mod Parse
pub mod Command
pub mod Entry
pub mod History
pub mod Watch
pub mod Keys
pub mod Loop
