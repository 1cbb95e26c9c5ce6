-- ===== src/Dwarf/Pointer/Signed.antt =====
-- The format DW_EH_PE_sleb128.
use libunwind.Prelude.{ℕ, ◌-◌, ◌*◌, ◌%◌, ◌^◌, ◌<◌, ◌≤◌, ◌≡◌, ◌≢◌, arith, List, length}
use libunwind.Prelude.Bits.{word_mod}
use libunwind.Prelude.Int.{signed, to_word}
use libunwind.Prelude.Power.{pow_pos}
use native.Mathlib.Nat.{pow-le-pow_right, mod-eq_of_lt}
use libunwind.Result.{ok}
use libunwind.Dwarf.Read.{AddrSpace}
use libunwind.Dwarf.Read.Bytes.{after, Holds}
use libunwind.Dwarf.Leb128.{dwarf_read_uleb128, dwarf_read_sleb128}
use libunwind.Dwarf.Leb128.Decode.{IsLeb128, groups, read_uleb128-groups}
use libunwind.Dwarf.Leb128.Signed.{groups-width, read_sleb128-signed}
use libunwind.Dwarf.Types.{ProcInfo}
use libunwind.Dwarf.Pointer.{
  dwarf_read_encoded_pointer, read_encoded, read_format, apply_base, trim, follow,
}

-- A negative number of `s` bits is another 64-bit word than its bits.
word-signed_negative :
    (s g : ℕ)
    → s ≤ 63
    → g < 2 ^ s
    → 2 ^ (s - 1) ≤ g
    → (g % word_mod ≡ g) × (g ≢ 0) × (to_word (signed s g) ≢ g)
word-signed_negative s g hs hg neg =
    let small : 2 ^ s ≤ 2 ^ 63 = pow-le-pow_right (omega arith) hs in
    let low : g % 2 ^ s ≡ g = mod-eq_of_lt hg in
    let some_bit : 0 < 2 ^ (s - 1) = pow_pos (s - 1) in
    (omega arith, omega arith, rw low (ground arith))

-- On a 64-bit address space every negative number of at most nine bytes in the format
-- DW_EH_PE_sleb128, taken as absolute, is misread: `dwarf_read_encoded_pointer` returns its groups
-- as an unsigned number, which is not what `dwarf_read_sleb128` returns for the same bytes.
pub read_encoded_pointer-sleb128_negative :
    (space : AddrSpace) (pi : ProcInfo) (addr : ℕ) (bs : List ℕ)
    → space.addr_size ≡ 8
    → IsLeb128 bs
    → length bs ≤ 9
    → Holds space addr bs
    → 2 ^ (7 * length bs - 1) ≤ groups bs
    → (dwarf_read_encoded_pointer space 0x09 pi addr ≡ ok (groups bs, after addr (length bs)))
      × (dwarf_read_encoded_pointer space 0x09 pi addr ≢ dwarf_read_sleb128 space addr)
unfolding dwarf_read_encoded_pointer read_encoded read_format apply_base trim follow
read_encoded_pointer-sleb128_negative space pi addr bs size wf len holds negative =
    let (low, nonzero, differ) =
      word-signed_negative (7 * length bs) (groups bs) (omega arith) (groups-width bs) negative in
    let u : dwarf_read_uleb128 space addr ≡ ok (groups bs % word_mod, after addr (length bs)) =
      read_uleb128-groups space addr bs wf (omega arith) holds in
    let s : dwarf_read_sleb128 space addr
        ≡ ok (to_word (signed (7 * length bs) (groups bs)), after addr (length bs)) =
      read_sleb128-signed space addr bs wf len holds in
    (ground (arith, u), ground (arith, u, s))
