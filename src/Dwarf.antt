-- ===== src/Dwarf.antt =====
-- The DWARF part of libunwind: src/dwarf and include/dwarf_i.h.
pub mod Read
pub mod Leb128
pub mod Types
pub mod Pointer
pub mod Expr
pub mod Cfi
pub mod Lands
pub mod Frame
pub mod Cache
pub mod Find
pub mod Fde
pub mod Search
