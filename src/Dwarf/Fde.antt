-- ===== src/Dwarf/Fde.antt =====
-- src/dwarf/Gfde.c: common information entries and frame description entries.
pub mod Augmentation
pub mod Cie
pub mod Extract
use libunwind.Prelude.{
  ℕ, zero, suc, ◌+◌, ◌-◌, ◌%◌, Bool, true, false, ltb, leb, ◌==◌, ◌&&◌, ◌||◌, not, if◌then◌else◌,
  List, [], ◌∷◌, ◌++◌, length, some,
}
use libunwind.Prelude.Bits.{word_mod, low_bits}
use libunwind.Result.{Result, ok, err, stop, inval, badversion, noinfo, nomem, out_of_fuel, ◌>>=◌}
use libunwind.Dwarf.Read.{
  AddrSpace, dwarf_readu8, dwarf_readu16, dwarf_readu32, dwarf_readu64, dwarf_reads32,
  dwarf_reads64,
}
use libunwind.Dwarf.Leb128.{dwarf_read_uleb128, dwarf_read_sleb128}
use libunwind.Dwarf.Types.{CieInfo, ProcInfo, Format}
use libunwind.Dwarf.Pointer.{dw_eh_pe_omit, dwarf_read_encoded_pointer}

unfoldable pub is_cie_id : ℕ → Bool → Bool
is_cie_id val is_debug_frame = if is_debug_frame then val == word_mod - 1 else val == 0

-- `memset (&dci, 0, sizeof (dci))`, with `lsda_encoding` set to DW_EH_PE_omit.
abbrev pub no_cie : CieInfo
no_cie = record {
  cie_instr_start = 0;
  cie_instr_end = 0;
  fde_instr_start = 0;
  fde_instr_end = 0;
  code_align = 0;
  data_align = 0;
  ret_addr_column = 0;
  handler = 0;
  abi = 0;
  tag = 0;
  fde_encoding = 0;
  lsda_encoding = dw_eh_pe_omit;
  sized_augmentation = false;
  have_abi_marker = false;
  signal_frame = false;
}

unfoldable pub default_encoding : AddrSpace → ℕ
default_encoding space =
    if space.addr_size == 4 then 0x03 else if space.addr_size == 8 then 0x04 else dw_eh_pe_omit

-- The length and the identifier of a CIE, in the 32-bit and the 64-bit format: the end of the entry
-- and the address behind both.
unfoldable pub cie_header : AddrSpace → Bool → (addr : ℕ) → Result (ℕ × ℕ)
cie_header space is_debug_frame addr = do
  (u32val, addr) ← dwarf_readu32 space addr
  if u32val == 0xffffffff
      then (do
        (u64val, addr) ← dwarf_readu64 space addr
        (cie_id, next) ← dwarf_readu64 space addr
        if cie_id == (if is_debug_frame then 0xffffffffffffffff else 0)
            then ok ((addr + u64val) % word_mod, next)
            else err inval)
      else (do
        (cie_id, next) ← dwarf_readu32 space addr
        if cie_id == (if is_debug_frame then 0xffffffff else 0)
            then ok ((addr + u32val) % word_mod, next)
            else err inval)

-- The augmentation string up to its zero byte. `augstr` keeps the first four characters.
unfoldable pub read_augmentation :
    AddrSpace → (fuel : ℕ) (augstr : List ℕ) (addr : ℕ) → Result (List ℕ × ℕ)
read_augmentation space zero augstr addr = stop out_of_fuel
read_augmentation space (suc fuel) augstr addr = do
  (ch, addr) ← dwarf_readu8 space addr
  let kept = if ltb (length augstr) 4 then augstr ++ (ch ∷ []) else augstr
  let rest = read_augmentation space fuel kept addr
  if ch == 0 then ok (augstr, addr) else rest

-- What the second part of `parse_cie` fills in.
pub record Parsed : Type 0 where
  pub dci : CieInfo
  pub fde_encoding : ℕ
  pub addr : ℕ

unfoldable pub read_handler : AddrSpace → ProcInfo → Parsed → Result Parsed
read_handler space pi p = do
  (handler_encoding, addr) ← dwarf_readu8 space p.addr
  (handler, addr) ← dwarf_read_encoded_pointer space handler_encoding pi addr
  ok (record p { dci = record p.dci { handler = handler }; addr = addr })

-- The loop over the augmentation's characters.
unfoldable pub parse_augmentation : AddrSpace → ProcInfo → List ℕ → Parsed → Result Parsed
unfolding read_handler
parse_augmentation space pi [] p = ok p
parse_augmentation space pi (c ∷ cs) p =
    let rest = parse_augmentation space pi cs in
    if c == b'L'
    then (do
      (ch, addr) ← dwarf_readu8 space p.addr
      rest (record p { dci = record p.dci { lsda_encoding = ch }; addr = addr }))
    else if c == b'R'
    then (do
      (ch, addr) ← dwarf_readu8 space p.addr
      rest (record p { fde_encoding = ch; addr = addr }))
    else if c == b'P'
    then (do p ← read_handler space pi p; rest p)
    else if c == b'S'
    then rest (record p { dci = record p.dci { signal_frame = true; have_abi_marker = true } })
    else if p.dci.sized_augmentation
    then ok p
    else err inval

-- `if (augstr[0] == 'z')`, and then the loop.
unfoldable pub sized_augmentation : AddrSpace → ProcInfo → List ℕ → Parsed → Result Parsed
sized_augmentation space pi [] p = ok p
sized_augmentation space pi (c ∷ cs) p =
    if c == b'z'
    then (do
      (aug_size, addr) ← dwarf_read_uleb128 space p.addr
      parse_augmentation space pi cs
          (record p { dci = record p.dci { sized_augmentation = true }; addr = addr }))
    else parse_augmentation space pi (c ∷ cs) p

-- The column is a byte in version 1 and a number after it.
unfoldable pub read_ret_addr_column : AddrSpace → (version addr : ℕ) → Result (ℕ × ℕ)
read_ret_addr_column space version addr =
    if version == 1 then dwarf_readu8 space addr else dwarf_read_uleb128 space addr

-- The sizes of an address and a segment, which nothing uses.
unfoldable pub skip_sizes : AddrSpace → (version addr : ℕ) → Result ℕ
skip_sizes space version addr =
    if ltb 3 version
    then (do (_, addr) ← dwarf_readu8 space addr; (_, addr) ← dwarf_readu8 space addr; ok addr)
    else ok addr

-- DWARF_CIE_VERSION is 3 and DWARF_CIE_VERSION_MAX is 4.
abbrev pub supported : ℕ → Bool
supported version = (version == 1) || (leb 3 version && leb version 4)

unfoldable pub parse_cie :
    AddrSpace → (fuel addr : ℕ) → ProcInfo → (is_debug_frame : Bool) → Result CieInfo
parse_cie space fuel addr pi is_debug_frame = do
  (end, addr) ← cie_header space is_debug_frame addr
  (version, addr) ← dwarf_readu8 space addr
  if not (supported version) then err badversion else do
    (augstr, addr) ← read_augmentation space fuel [] addr
    addr ← skip_sizes space version addr
    (code_align, addr) ← dwarf_read_uleb128 space addr
    (data_align, addr) ← dwarf_read_sleb128 space addr
    (column, addr) ← read_ret_addr_column space version addr
    p ← sized_augmentation space pi augstr (record {
      dci = record no_cie {
        cie_instr_end = end;
        code_align = code_align;
        data_align = data_align;
        ret_addr_column = column;
      };
      fde_encoding = default_encoding space;
      addr = addr;
    })
    ok (record p.dci { fde_encoding = p.fde_encoding; cie_instr_start = p.addr })

-- The head of an FDE: its end, which goes to `*addrp`, the address of its offset to the CIE, the
-- offset, and the address behind it.
pub record FdeHead : Type 0 where
  pub end : ℕ
  pub offset_addr : ℕ
  pub cie_offset : ℕ
  pub addr : ℕ

unfoldable pub fde_head : AddrSpace → (addr : ℕ) → Result FdeHead
fde_head space addr = do
  (u32val, addr) ← dwarf_readu32 space addr
  if u32val == 0xffffffff
      then (do
        (u64val, addr) ← dwarf_readu64 space addr
        (cie_offset, next) ← dwarf_reads64 space addr
        ok (record {
          end = (addr + u64val) % word_mod;
          offset_addr = addr;
          cie_offset = cie_offset;
          addr = next;
        }))
      else if u32val == 0
      then err noinfo
      else (do
        (cie_offset, next) ← dwarf_reads32 space addr
        ok (record {
          end = (addr + u32val) % word_mod;
          offset_addr = addr;
          cie_offset = cie_offset;
          addr = next;
        }))

abbrev pub cie_address : FdeHead → (base : ℕ) → Bool → ℕ
cie_address h base is_debug_frame =
    if is_debug_frame
    then (base + h.cie_offset) % word_mod
    else (h.offset_addr + word_mod - h.cie_offset) % word_mod

-- The end of the augmentation data, 0 without a size.
unfoldable pub augmentation_end : AddrSpace → CieInfo → (addr : ℕ) → Result (ℕ × ℕ)
augmentation_end space dci addr =
    if dci.sized_augmentation
    then (do
      (aug_size, addr) ← dwarf_read_uleb128 space addr
      ok ((addr + aug_size) % word_mod, addr))
    else ok (0, addr)

-- The ABI marker, if there is one.
unfoldable pub read_marker : AddrSpace → CieInfo → (addr : ℕ) → Result (CieInfo × ℕ)
read_marker space dci addr =
    if dci.have_abi_marker
    then (do
      (abi, addr) ← dwarf_readu16 space addr
      (tag, addr) ← dwarf_readu16 space addr
      ok (record dci { abi = abi; tag = tag }, addr))
    else ok (dci, addr)

-- `if (need_unwind_info)`. `alloc` is whether `mempool_alloc` gives an object.
unfoldable pub attach_info :
    AddrSpace
    → (need alloc : Bool) → CieInfo
    → (aug_end fde_end addr size : ℕ) → ProcInfo
    → Result ProcInfo
attach_info space need alloc dci aug_end fde_end addr size pi =
    if need
    then if alloc
      then (do
        (dci, addr) ← read_marker space dci addr
        ok (record pi {
          format = Format.table;
          unwind_info_size = size;
          unwind_info = some (record dci {
            fde_instr_start = if dci.sized_augmentation then aug_end else addr;
            fde_instr_end = fde_end;
          });
        }))
      else err nomem
    else ok pi

-- What follows the head of an FDE. `size` is `sizeof (dci)`.
unfoldable pub fde_body :
    AddrSpace
    → (fuel : ℕ) → FdeHead
    → (base : ℕ) → (need alloc is_debug_frame : Bool) (size : ℕ) → ProcInfo
    → Result ProcInfo
fde_body space fuel h base need alloc is_debug_frame size pi = do
  dci ← parse_cie space fuel (cie_address h base is_debug_frame) pi is_debug_frame
  (start_ip, addr) ← dwarf_read_encoded_pointer space dci.fde_encoding pi h.addr
  (ip_range, addr) ← dwarf_read_encoded_pointer space (low_bits dci.fde_encoding 4) pi addr
  let pi' : ProcInfo = record pi {
    start_ip = start_ip;
    end_ip = (start_ip + ip_range) % word_mod;
    handler = dci.handler;
  }
  (aug_end, addr) ← augmentation_end space dci addr
  (lsda, addr) ← dwarf_read_encoded_pointer space dci.lsda_encoding pi' addr
  attach_info space need alloc dci aug_end h.end addr size (record pi' { lsda = lsda })

-- The filled `*pi`, and `*addrp`. Where the entry is a CIE, `*pi` stays as it was.
unfoldable pub dwarf_extract_proc_info_from_fde :
    AddrSpace
    → (fuel addr : ℕ) → ProcInfo
    → (base : ℕ) → (need alloc is_debug_frame : Bool) (size : ℕ) → Result (ProcInfo × ℕ)
dwarf_extract_proc_info_from_fde space fuel addr pi base need alloc is_debug_frame size = do
  h ← fde_head space addr
  if is_cie_id h.cie_offset is_debug_frame
      then ok (pi, h.end)
      else (do pi ← fde_body space fuel h base need alloc is_debug_frame size pi; ok (pi, h.end))
