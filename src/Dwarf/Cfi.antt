-- ===== src/Dwarf/Cfi.antt =====
-- src/dwarf/Gparser.c: call-frame instructions, which say where each register of the caller is.
pub mod State
pub mod Opcode
pub mod Step
pub mod Run
pub mod Invariant
pub mod Preserve
pub mod Pool
pub mod Forward
pub mod Onward
pub mod Ending
pub mod Rounds
pub mod Table
pub mod Columns
pub mod Simulate
pub mod Interpret
