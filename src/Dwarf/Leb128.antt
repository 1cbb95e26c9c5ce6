-- ===== src/Dwarf/Leb128.antt =====
-- include/dwarf_i.h: LEB128 numbers, seven bits a byte, lowest first, the top bit set on every byte
-- but the last.
pub mod Decode
pub mod RoundTrip
pub mod Safe
pub mod Signed
use libunwind.Prelude.{
  ℕ, zero, suc, ◌+◌, ◌-◌, ◌*◌, ◌%◌, ◌^◌, Bool, bit_or, ltb, leb, ◌&&◌, if◌then◌else◌,
}
use libunwind.Prelude.Bits.{word_mod, low_bits, test_bit}
use libunwind.Result.{Result, ok, stop, undefined, out_of_fuel, ◌>>=◌}
use libunwind.Dwarf.Read.{AddrSpace, Reader, dwarf_readu8}

-- What the loop leaves behind.
pub record Leb : Type 0 where
  pub val : ℕ
  pub shift : ℕ
  pub byte : ℕ
  pub addr : ℕ

-- A round of `val |= ((unw_word_t) byte & 0x7f) << shift`.
abbrev pub add_group : ℕ → ℕ → ℕ → ℕ
add_group val byte shift = bit_or val (low_bits byte 7 * 2 ^ shift % word_mod)

-- The `do … while (byte & 0x80)` loop of both functions. A shift by 64 or more has no value in C.
unfoldable pub read_leb128_loop : AddrSpace → ℕ → (addr val shift : ℕ) → Result Leb
read_leb128_loop space zero addr val shift = stop out_of_fuel
read_leb128_loop space (suc fuel) addr val shift = do
  (byte, addr') ← dwarf_readu8 space addr
  let val' = add_group val byte shift
  let more = read_leb128_loop space fuel addr' val' (shift + 7)
  if leb 64 shift
      then stop undefined
      else if test_bit byte 7
      then more
      else ok (record { val = val'; shift = shift + 7; byte = byte; addr = addr' })

-- Eleven rounds are enough: the eleventh would shift by 70.
abbrev pub rounds : ℕ
rounds = 11

unfoldable pub dwarf_read_uleb128 : AddrSpace → Reader
dwarf_read_uleb128 space addr = do r ← read_leb128_loop space rounds addr 0 0; ok (r.val, r.addr)

-- `val |= ((unw_word_t) -1) << shift`
abbrev pub extend : ℕ → ℕ → ℕ
extend val shift = bit_or val ((word_mod - 1) * 2 ^ shift % word_mod)

unfoldable pub dwarf_read_sleb128 : AddrSpace → Reader
dwarf_read_sleb128 space addr = do
  r ← read_leb128_loop space rounds addr 0 0
  ok (if ltb r.shift 64 && test_bit r.byte 6 then extend r.val r.shift else r.val, r.addr)
