-- ===== src/Dwarf/Read.antt =====
-- include/dwarf_i.h: reading fixed-size values through an address space's `access_mem`, as a build
-- for remote unwinding does. An address is passed in and handed back behind the value read.
pub mod Bytes
pub mod Byte
pub mod Safe
use libunwind.Prelude.{ℕ, ◌+◌, ◌-◌, ◌*◌, ◌/◌, ◌%◌, ◌^◌, ◌≡◌, Bool, bit_or, ◌==◌, if◌then◌else◌}
use libunwind.Prelude.Bits.{word_mod}
use libunwind.Prelude.Int.{signed, to_word}
use libunwind.Result.{Result, ok, stop, aborted, ◌>>=◌}

-- `access_mem` is the callback of `unw_accessors_t` for a read: the word at an aligned address.
-- `host_big_endian` is UNW_BYTE_ORDER of the unwinder, `big_endian` and `addr_size` are those of
-- the address space (`tdep_big_endian`, `dwarf_addr_size`).
pub record AddrSpace : Type 0 where
  pub access_mem : ℕ → Result ℕ
  pub host_big_endian : Bool
  pub big_endian : Bool
  pub addr_size : ℕ

-- The type of a reader: the address is in and out.
abbrev pub Reader : Type 0
Reader = ℕ → Result (ℕ × ℕ)

-- `addr & -sizeof (unw_word_t)` is the address rounded down to a multiple of 8.
abbrev pub aligned : ℕ → ℕ
aligned addr = addr / 8 * 8

-- How far `val` is shifted to bring the byte at offset `off` down.
abbrev pub byte_shift : Bool → ℕ → ℕ
byte_shift big off = if big then 8 * (8 - 1 - off) else 8 * off

unfoldable pub dwarf_readu8 : AddrSpace → Reader
dwarf_readu8 space addr = do
  val ← space.access_mem (aligned addr)
  ok (val / 2 ^ byte_shift space.host_big_endian (addr - aligned addr) % 256, (addr + 1) % word_mod)

-- `v0 << k | v1`, or the other way round.
abbrev pub join : ℕ → Bool → ℕ → ℕ → ℕ
join k big v0 v1 = if big then bit_or v1 (v0 * 2 ^ k) else bit_or v0 (v1 * 2 ^ k)

unfoldable pub dwarf_readu16 : AddrSpace → Reader
dwarf_readu16 space addr = do
  (v0, addr) ← dwarf_readu8 space addr
  (v1, addr) ← dwarf_readu8 space addr
  ok (join 8 space.big_endian v0 v1, addr)

unfoldable pub dwarf_readu32 : AddrSpace → Reader
dwarf_readu32 space addr = do
  (v0, addr) ← dwarf_readu16 space addr
  (v1, addr) ← dwarf_readu16 space addr
  ok (join 16 space.big_endian v0 v1, addr)

unfoldable pub dwarf_readu64 : AddrSpace → Reader
dwarf_readu64 space addr = do
  (v0, addr) ← dwarf_readu32 space addr
  (v1, addr) ← dwarf_readu32 space addr
  ok (join 32 space.big_endian v0 v1, addr)

-- A signed value is handed on as the `unw_word_t` that it is converted to.
abbrev sign_extend : ℕ → ℕ → ℕ
sign_extend w v = to_word (signed w v)

unfoldable pub dwarf_reads8 : AddrSpace → Reader
dwarf_reads8 space addr = do (uval, addr) ← dwarf_readu8 space addr; ok (sign_extend 8 uval, addr)

unfoldable pub dwarf_reads16 : AddrSpace → Reader
dwarf_reads16 space addr = do
  (uval, addr) ← dwarf_readu16 space addr
  ok (sign_extend 16 uval, addr)

unfoldable pub dwarf_reads32 : AddrSpace → Reader
dwarf_reads32 space addr = do
  (uval, addr) ← dwarf_readu32 space addr
  ok (sign_extend 32 uval, addr)

unfoldable pub dwarf_reads64 : AddrSpace → Reader
dwarf_reads64 space addr = do
  (uval, addr) ← dwarf_readu64 space addr
  ok (sign_extend 64 uval, addr)

-- A machine word of the address space.
unfoldable pub dwarf_readw : AddrSpace → Reader
dwarf_readw space addr =
    if space.addr_size == 4
    then dwarf_readu32 space addr
    else if space.addr_size == 8
    then dwarf_readu64 space addr
    else stop aborted
