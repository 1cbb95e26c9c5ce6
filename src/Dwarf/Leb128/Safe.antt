-- ===== src/Dwarf/Leb128/Safe.antt =====
-- The LEB128 readers end: the loop reads at most eleven bytes.
use libunwind.Prelude.{ℕ, zero, suc, ◌+◌, ◌*◌, ◌≤◌, leb, arith, Bool-cases, inl, inr}
use libunwind.Prelude.Bits.{test_bit}
use libunwind.Result.{Safe, Safe-bind, Safe-if}
use libunwind.Dwarf.Read.{AddrSpace, dwarf_readu8}
use libunwind.Dwarf.Read.Safe.{Answers, readu8-Safe}
use libunwind.Dwarf.Leb128.{
  add_group, read_leb128_loop, rounds, dwarf_read_uleb128, dwarf_read_sleb128,
}

module _ (space : AddrSpace) (answers : Answers space) where
  read_leb128_loop-Safe :
      (fuel addr val shift : ℕ)
      → 71 ≤ shift + 7 * fuel
      → shift ≤ 70
      → Safe (read_leb128_loop space fuel addr val shift)
  unfolding read_leb128_loop
  read_leb128_loop-Safe zero addr val shift h p = absurd (omega arith)
  read_leb128_loop-Safe (suc fuel) addr val shift h p =
      Safe-bind (dwarf_readu8 space addr) _ (readu8-Safe space answers addr) (λ r.
        elim (Bool-cases (leb 64 shift)) [
          | inl wide ↦ rw wide tt
          | inr narrow ↦ rw narrow (
              Safe-if (test_bit r.0 7) _ _
                (read_leb128_loop-Safe fuel r.1 (add_group val r.0 shift) (shift + 7) (omega arith)
                  (ground arith))
                tt)
        ])

  pub uleb128-Safe : (addr : ℕ) → Safe (dwarf_read_uleb128 space addr)
  unfolding dwarf_read_uleb128
  uleb128-Safe addr =
      Safe-bind (read_leb128_loop space rounds addr 0 0) _
        (read_leb128_loop-Safe rounds addr 0 0 (omega arith) (omega arith)) (λ r. tt)

  pub sleb128-Safe : (addr : ℕ) → Safe (dwarf_read_sleb128 space addr)
  unfolding dwarf_read_sleb128
  sleb128-Safe addr =
      Safe-bind (read_leb128_loop space rounds addr 0 0) _
        (read_leb128_loop-Safe rounds addr 0 0 (omega arith) (omega arith)) (λ r. tt)
