-- ===== src/Dwarf/Expr.antt =====
-- src/dwarf/Gexpr.c: DWARF location expressions.
pub mod Operand
pub mod Stack
pub mod Alu
pub mod Opcode
pub mod Machine
pub mod Eval
pub mod Runs
pub mod Compile
pub mod Rounds
pub mod Correct
pub mod Order
pub mod Sized
pub mod Looping
