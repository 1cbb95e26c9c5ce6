-- ===== src/Tests.antt =====
-- Examples: each result at a concrete input, and runs of the definitions.
pub mod Memory
pub mod Leb128
pub mod Pointer
pub mod Expr
pub mod Fde
pub mod Search
pub mod Cfi
pub mod Arm
pub mod Frame
pub mod Cache
pub mod Find
pub mod Dyn
pub mod Pool
pub mod Elf
