-- ===== src/Dwarf/Pointer/Safe.antt =====
-- `dwarf_read_encoded_pointer` neither runs out of fuel nor reads outside a list.
use libunwind.Prelude.{ℕ, Bool, ◌==◌, true, false, arith}
use libunwind.Prelude.Bits.{test_bit}
use libunwind.Result.{Safe, Safe-bind, Safe-if}
use libunwind.Dwarf.Read.{AddrSpace, dwarf_readw}
use libunwind.Dwarf.Read.Safe.{
  Answers, readu16-Safe, readu32-Safe, readu64-Safe, reads16-Safe, reads32-Safe, reads64-Safe,
  readw-Safe,
}
use libunwind.Dwarf.Leb128.Safe.{uleb128-Safe}
use libunwind.Dwarf.Types.{ProcInfo}
use libunwind.Dwarf.Pointer.{
  read_format, apply_base, trim, follow, read_encoded, dwarf_read_encoded_pointer, format_of,
  appl_of, dw_eh_pe_omit, dw_eh_pe_aligned, align_up,
}

apply_base-Safe : (pi : ProcInfo) (appl initial val : ℕ) → Safe (apply_base pi appl initial val)
unfolding apply_base
apply_base-Safe pi appl initial val = ground arith

trim-Safe : (space : AddrSpace) (val : ℕ) → Safe (trim space val)
unfolding trim
trim-Safe space val = ground arith

module _ (space : AddrSpace) (answers : Answers space) where
  read_format-Safe : (format addr : ℕ) → Safe (read_format space format addr)
  unfolding read_format
  read_format-Safe format addr = ground (
    arith,
    readw-Safe space answers addr,
    uleb128-Safe space answers addr,
    readu16-Safe space answers addr,
    readu32-Safe space answers addr,
    readu64-Safe space answers addr,
    reads16-Safe space answers addr,
    reads32-Safe space answers addr,
    reads64-Safe space answers addr,
  )

  follow-Safe : (indirect : Bool) (val : ℕ) → Safe (follow space indirect val)
  unfolding follow
  follow-Safe true val =
      Safe-bind (dwarf_readw space val) _ (readw-Safe space answers val) (λ r. tt)
  follow-Safe false val = tt

  read_encoded-Safe :
      (encoding addr : ℕ) (pi : ProcInfo) → Safe (read_encoded space encoding pi addr)
  unfolding read_encoded
  read_encoded-Safe encoding addr pi =
      Safe-bind (read_format space (format_of encoding) addr) _
        (read_format-Safe (format_of encoding) addr)
        (λ r. Safe-if (r.0 == 0) _ _ tt (
          Safe-bind (apply_base pi (appl_of encoding) addr r.0) _
            (apply_base-Safe pi (appl_of encoding) addr r.0)
            (λ based. Safe-bind (trim space based) _ (trim-Safe space based) (λ trimmed.
              Safe-bind (follow space (test_bit encoding 7) trimmed) _
                (follow-Safe (test_bit encoding 7) trimmed) (λ target. tt)))))

  -- Whatever the encoding, the bytes and the base addresses.
  pub read_encoded_pointer-Safe :
      (encoding addr : ℕ) (pi : ProcInfo) → Safe (dwarf_read_encoded_pointer space encoding pi addr)
  unfolding dwarf_read_encoded_pointer
  read_encoded_pointer-Safe encoding addr pi = Safe-if (encoding == dw_eh_pe_omit) _ _ tt (
      Safe-if (encoding == dw_eh_pe_aligned) _ _
        (readw-Safe space answers (align_up addr space.addr_size))
        (read_encoded-Safe encoding addr pi))
