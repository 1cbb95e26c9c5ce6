-- ===== src/Dwarf/Pointer.antt =====
-- include/dwarf_i.h and src/dwarf/Gpe.c: `dwarf_read_encoded_pointer`, a pointer in one of the
-- formats of the exception-handling tables.
pub mod Relative
pub mod Signed
pub mod Safe
pub mod Lands
use libunwind.Prelude.{ℕ, ◌+◌, ◌-◌, ◌*◌, ◌/◌, ◌%◌, ◌^◌, Bool, ltb, ◌==◌, if◌then◌else◌}
use libunwind.Prelude.Bits.{word_mod, low_bits, test_bit}
use libunwind.Result.{Result, ok, err, stop, inval, aborted, ◌>>=◌}
use libunwind.Dwarf.Read.{
  AddrSpace, Reader, dwarf_readu16, dwarf_readu32, dwarf_readu64, dwarf_reads16, dwarf_reads32,
  dwarf_reads64, dwarf_readw,
}
use libunwind.Dwarf.Leb128.{dwarf_read_uleb128}
use libunwind.Dwarf.Types.{ProcInfo}

-- The encodings that are no format with an application.
abbrev pub dw_eh_pe_omit : ℕ
dw_eh_pe_omit = 0xff

abbrev pub dw_eh_pe_aligned : ℕ
dw_eh_pe_aligned = 0x50

-- encoding & DW_EH_PE_FORMAT_MASK
abbrev pub format_of : ℕ → ℕ
format_of encoding = low_bits encoding 4

-- encoding & DW_EH_PE_APPL_MASK
abbrev pub appl_of : ℕ → ℕ
appl_of encoding = low_bits (encoding / 2 ^ 4) 3 * 2 ^ 4

-- The first `switch`: the value as it is stored.
unfoldable pub read_format : AddrSpace → ℕ → Reader
read_format space format addr =
    if format == 0x00
    then dwarf_readw space addr
    else if format == 0x01
    then dwarf_read_uleb128 space addr
    else if format == 0x02
    then dwarf_readu16 space addr
    else if format == 0x03
    then dwarf_readu32 space addr
    else if format == 0x04
    then dwarf_readu64 space addr
    else if format == 0x09
    then dwarf_read_uleb128 space addr
    else if format == 0x0a
    then dwarf_reads16 space addr
    else if format == 0x0b
    then dwarf_reads32 space addr
    else if format == 0x0c
    then dwarf_reads64 space addr
    else err inval

-- The second `switch`: what the value is relative to.
unfoldable pub apply_base : ProcInfo → ℕ → (initial_addr val : ℕ) → Result ℕ
apply_base pi appl initial_addr val =
    if appl == 0x00
    then ok val
    else if appl == 0x10
    then ok ((val + initial_addr) % word_mod)
    else if appl == 0x30
    then ok ((val + pi.gp) % word_mod)
    else if appl == 0x40
    then ok ((val + pi.start_ip) % word_mod)
    else err inval

-- `val = (uint32_t) val` where addresses are narrower than a word.
unfoldable pub trim : AddrSpace → ℕ → Result ℕ
trim space val =
    if ltb space.addr_size 8
    then if space.addr_size == 4 then ok (val % 2 ^ 32) else stop aborted
    else ok val

-- The value is the address of the pointer.
unfoldable pub follow : AddrSpace → Bool → ℕ → Result ℕ
follow space indirect val =
    if indirect then (do (target, _) ← dwarf_readw space val; ok target) else ok val

-- (addr + size - 1) & -size
abbrev pub align_up : ℕ → ℕ → ℕ
align_up addr size = (addr + size - 1) % word_mod / size * size

-- The part behind the two special encodings.
unfoldable pub read_encoded : AddrSpace → ℕ → ProcInfo → Reader
read_encoded space encoding pi initial_addr = do
  (val, addr) ← read_format space (format_of encoding) initial_addr
  if val == 0 then ok (0, addr) else do
    based ← apply_base pi (appl_of encoding) initial_addr val
    trimmed ← trim space based
    target ← follow space (test_bit encoding 7) trimmed
    ok (target, addr)

unfoldable pub dwarf_read_encoded_pointer : AddrSpace → ℕ → ProcInfo → Reader
dwarf_read_encoded_pointer space encoding pi addr =
    if encoding == dw_eh_pe_omit
    then ok (0, addr)
    else if encoding == dw_eh_pe_aligned
    then dwarf_readw space (align_up addr space.addr_size)
    else read_encoded space encoding pi addr
