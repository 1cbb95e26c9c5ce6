-- ===== src/Dwarf/Read/Safe.antt =====
-- The readers return a value or an error whenever `access_mem` does, or abort.
use libunwind.Prelude.{ℕ, ◌/◌, ◌*◌, ◌==◌}
use libunwind.Result.{Safe, Safe-bind, Safe-if}
use libunwind.Dwarf.Read.{
  AddrSpace, dwarf_readu8, dwarf_readu16, dwarf_readu32, dwarf_readu64, dwarf_reads16,
  dwarf_reads32, dwarf_reads64, dwarf_readw,
}

-- The callback always returns a value or an error.
abbrev pub Answers : AddrSpace → Type 0
Answers space = (a : ℕ) → Safe (space.access_mem a)

module _ (space : AddrSpace) (answers : Answers space) where
  pub readu8-Safe : (addr : ℕ) → Safe (dwarf_readu8 space addr)
  unfolding dwarf_readu8
  readu8-Safe addr = Safe-bind (space.access_mem (addr / 8 * 8)) _ (answers _) (λ v. tt)

  pub readu16-Safe : (addr : ℕ) → Safe (dwarf_readu16 space addr)
  unfolding dwarf_readu16
  readu16-Safe addr =
      Safe-bind (dwarf_readu8 space addr) _ (readu8-Safe addr)
        (λ v. Safe-bind (dwarf_readu8 space v.1) _ (readu8-Safe v.1) (λ w. tt))

  pub readu32-Safe : (addr : ℕ) → Safe (dwarf_readu32 space addr)
  unfolding dwarf_readu32
  readu32-Safe addr =
      Safe-bind (dwarf_readu16 space addr) _ (readu16-Safe addr)
        (λ v. Safe-bind (dwarf_readu16 space v.1) _ (readu16-Safe v.1) (λ w. tt))

  pub readu64-Safe : (addr : ℕ) → Safe (dwarf_readu64 space addr)
  unfolding dwarf_readu64
  readu64-Safe addr =
      Safe-bind (dwarf_readu32 space addr) _ (readu32-Safe addr)
        (λ v. Safe-bind (dwarf_readu32 space v.1) _ (readu32-Safe v.1) (λ w. tt))

  pub reads16-Safe : (addr : ℕ) → Safe (dwarf_reads16 space addr)
  unfolding dwarf_reads16
  reads16-Safe addr = Safe-bind (dwarf_readu16 space addr) _ (readu16-Safe addr) (λ v. tt)

  pub reads32-Safe : (addr : ℕ) → Safe (dwarf_reads32 space addr)
  unfolding dwarf_reads32
  reads32-Safe addr = Safe-bind (dwarf_readu32 space addr) _ (readu32-Safe addr) (λ v. tt)

  pub reads64-Safe : (addr : ℕ) → Safe (dwarf_reads64 space addr)
  unfolding dwarf_reads64
  reads64-Safe addr = Safe-bind (dwarf_readu64 space addr) _ (readu64-Safe addr) (λ v. tt)

  pub readw-Safe : (addr : ℕ) → Safe (dwarf_readw space addr)
  unfolding dwarf_readw
  readw-Safe addr =
      Safe-if (space.addr_size == 4) (dwarf_readu32 space addr) _ (readu32-Safe addr)
        (Safe-if (space.addr_size == 8) (dwarf_readu64 space addr) _ (readu64-Safe addr) tt)
