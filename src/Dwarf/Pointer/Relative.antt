-- ===== src/Dwarf/Pointer/Relative.antt =====
-- Pointers relative to their own address, as `.eh_frame` holds them.
use libunwind.Prelude.{ℕ, ◌+◌, ◌-◌, ◌%◌, ◌^◌, ◌<◌, ◌≤◌, ◌≡◌, ◌≢◌, arith, [], ◌∷◌}
use libunwind.Prelude.Bits.{word_mod}
use libunwind.Prelude.Int.{signed, to_word}
use libunwind.Result.{ok}
use libunwind.Dwarf.Read.{AddrSpace, dwarf_reads32}
use libunwind.Dwarf.Read.Bytes.{after, Holds, number, readu32-number}
use libunwind.Dwarf.Types.{ProcInfo}
use libunwind.Dwarf.Pointer.{
  dwarf_read_encoded_pointer, read_encoded, read_format, apply_base, trim, follow,
}

-- A 32-bit field with `n` in it, read with its sign.
pub reads32-number :
    (space : AddrSpace) (addr a b c d : ℕ)
    → Holds space addr (a ∷ b ∷ c ∷ d ∷ [])
    → dwarf_reads32 space addr
      ≡ ok (to_word (signed 32 (number space.big_endian (a ∷ b ∷ c ∷ d ∷ []))), after addr 4)
unfolding dwarf_reads32
reads32-number space addr a b c d h = rw (readu32-number space addr a b c d h)

-- Within 2 GB of its address, a target comes back from its distance, whatever wraps.
distance_back :
    (addr target : ℕ)
    → addr < word_mod
    → target < word_mod
    → (target < addr + 2 ^ 31)
    → (addr ≤ target + 2 ^ 31)
    → (to_word (signed 32 ((target + word_mod - addr) % 2 ^ 32)) + addr) % word_mod ≡ target
distance_back addr target ha ht above below = ground arith

distance_nonzero :
    (addr target : ℕ)
    → addr < word_mod
    → target < word_mod
    → (target < addr + 2 ^ 31)
    → (addr ≤ target + 2 ^ 31)
    → target ≢ addr
    → to_word (signed 32 ((target + word_mod - addr) % 2 ^ 32)) ≢ 0
distance_nonzero addr target ha ht above below differ = ground arith

-- DW_EH_PE_pcrel | DW_EH_PE_sdata4 on a 64-bit address space: where the four bytes at `addr` hold
-- the distance from `addr` to another address less than 2 GB away, in the byte order of the
-- address space, the reader returns that address, and the address behind the field.
pub read_encoded_pointer-pcrel_sdata4 :
    (space : AddrSpace) (pi : ProcInfo) (addr target a b c d : ℕ)
    → space.addr_size ≡ 8
    → addr < word_mod
    → target < word_mod
    → target < addr + 2 ^ 31
    → addr ≤ target + 2 ^ 31
    → target ≢ addr
    → Holds space addr (a ∷ b ∷ c ∷ d ∷ [])
    → number space.big_endian (a ∷ b ∷ c ∷ d ∷ []) ≡ (target + word_mod - addr) % 2 ^ 32
    → dwarf_read_encoded_pointer space 0x1b pi addr ≡ ok (target, after addr 4)
unfolding dwarf_read_encoded_pointer read_encoded read_format apply_base trim follow
read_encoded_pointer-pcrel_sdata4 space pi addr target a b c d size ha ht above below differ holds
      num =
    ground (
      arith,
      reads32-number space addr a b c d holds,
      distance_back addr target,
      distance_nonzero addr target,
    )
