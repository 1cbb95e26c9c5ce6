-- ===== src/Dwarf/Pointer/Lands.antt =====
-- How far `dwarf_read_encoded_pointer` moves the address.
use libunwind.Prelude.{ℕ, ◌+◌, ◌≤◌, ◌≡◌, sym, ◌==◌, ==_iff, Bool-cases, inl, inr, arith}
use mathlib.Core.Path.{subst}
use libunwind.Prelude.Bits.{test_bit}
use libunwind.Result.{Result, ok, err, stop, ◌>>=◌}
use libunwind.Dwarf.Read.{AddrSpace, dwarf_readw}
use libunwind.Dwarf.Types.{ProcInfo}
use libunwind.Dwarf.Lands.{
  Lands, next_of, Moves, Moves-le, Lands-bind, Lands-if, readw-Moves, readu16-Moves, readu32-Moves,
  readu64-Moves, reads16-Moves, reads32-Moves, reads64-Moves, uleb128-Moves,
}
use libunwind.Dwarf.Pointer.{
  read_format, apply_base, trim, follow, read_encoded, dwarf_read_encoded_pointer, format_of,
  appl_of, align_up, dw_eh_pe_omit, dw_eh_pe_aligned,
}

-- Any result lands where the reader before it left the address.
Lands-keep {ℓ} :
    {A : Type ℓ} (m : Result A) (a lo hi : ℕ) (f : A → ℕ)
    → lo ≤ a
    → a ≤ hi
    → Lands next_of lo hi (m >>= λ x. ok (f x, a))
Lands-keep (ok x) a lo hi f h k = (h, k)
Lands-keep (err e) a lo hi f h k = tt
Lands-keep (stop x) a lo hi f h k = tt

module _ (space : AddrSpace) where
  read_format-Moves : (format : ℕ) → Moves 11 (read_format space format)
  unfolding read_format
  read_format-Moves format addr h = ground (
    arith,
    readw-Moves space addr,
    uleb128-Moves space addr,
    readu16-Moves space addr,
    readu32-Moves space addr,
    readu64-Moves space addr,
    reads16-Moves space addr,
    reads32-Moves space addr,
    reads64-Moves space addr,
  )

  read_encoded-Moves : (encoding : ℕ) (pi : ProcInfo) → Moves 11 (read_encoded space encoding pi)
  unfolding read_encoded
  read_encoded-Moves encoding pi addr h =
      Lands-bind next_of next_of addr (addr + 11) addr (addr + 11)
        (read_format space (format_of encoding) addr) _
        (read_format-Moves (format_of encoding) addr h)
        (λ r lo hi.
          Lands-if next_of addr (addr + 11) (r.0 == 0) _ _ (lo, hi)
            (rest r.0 r.1 lo hi (apply_base pi (appl_of encoding) addr r.0)))
    where
      rest :
          (v a : ℕ)
          → addr ≤ a
          → a ≤ addr + 11
          → (m : Result ℕ)
          → Lands next_of addr (addr + 11) (
              m >>= λ based.
              trim space based >>= λ t. follow space (test_bit encoding 7) t >>= λ g. ok (g, a))
      rest v a lo hi (ok based) = last (trim space based)
        where
          last :
              (m : Result ℕ)
              → Lands next_of addr
                  (addr + 11)
                  (m >>= λ t. follow space (test_bit encoding 7) t >>= λ g. ok (g, a))
          last (ok t) =
              Lands-keep (follow space (test_bit encoding 7) t) a addr (addr + 11) (λ g. g) lo hi
          last (err e) = tt
          last (stop x) = tt
      rest v a lo hi (err e) = tt
      rest v a lo hi (stop x) = tt

  -- Aligning adds seven bytes at most, on an address space whose words can be read.
  aligned-Moves : Moves 15 (λ addr. dwarf_readw space (align_up addr space.addr_size))
  unfolding dwarf_readw
  aligned-Moves addr h = elim (Bool-cases (space.addr_size == 4)) [
    | inl four ↦
        let size : space.addr_size ≡ 4 = (==_iff space.addr_size 4).0 four in
        subst (λ n. Lands next_of addr (addr + 15) (dwarf_readw space (align_up addr n))) (sym size)
          (ground (arith, readw-Moves space (align_up addr 4)))
    | inr other ↦ elim (Bool-cases (space.addr_size == 8)) [
      | inl eight ↦
          let size : space.addr_size ≡ 8 = (==_iff space.addr_size 8).0 eight in
          subst (λ n. Lands next_of addr (addr + 15) (dwarf_readw space (align_up addr n)))
            (sym size) (ground (arith, readw-Moves space (align_up addr 8)))
      | inr none_fits ↦ rw (dwarf_readw, other, none_fits) tt
    ]
  ]

  pub read_encoded_pointer-Moves :
      (encoding : ℕ) (pi : ProcInfo) → Moves 15 (dwarf_read_encoded_pointer space encoding pi)
  unfolding dwarf_read_encoded_pointer
  read_encoded_pointer-Moves encoding pi addr h =
      Lands-if next_of addr (addr + 15) (encoding == dw_eh_pe_omit) _ _ (omega arith) (
        Lands-if next_of addr (addr + 15) (encoding == dw_eh_pe_aligned) _ _ (aligned-Moves addr h)
          (Moves-le space 11 15 (read_encoded space encoding pi) (omega arith)
            (read_encoded-Moves encoding pi) addr h))
