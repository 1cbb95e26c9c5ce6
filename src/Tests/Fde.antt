-- ===== src/Tests/Fde.antt =====
-- A CIE and two FDEs as a compiler writes them, and a table of both, which the search's examples use.
use libunwind.Prelude.{
  ℕ, zero, suc, ◌+◌, ◌*◌, ◌%◌, ◌<◌, ◌-◌, ◌≡◌, ◌≢◌, refl, arith, true, false, List, [], ◌∷◌, ◌++◌,
  some,
}
use libunwind.Prelude.Bits.{word_mod}
use libunwind.Result.{ok}
use libunwind.Dwarf.Read.{dwarf_readu8}
use libunwind.Dwarf.Read.Bytes.{Holds}
use libunwind.Dwarf.Types.{CieInfo, ProcInfo, Format}
use libunwind.Dwarf.Fde.{no_cie, default_encoding, parse_cie, dwarf_extract_proc_info_from_fde}
use libunwind.Dwarf.Fde.Cie.{parse_cie-eh_frame, parse_cie-unknown}
use libunwind.Dwarf.Fde.Extract.{extract_proc_info-eh_frame}
use libunwind.Tests.Memory.{memory, no_info, stand, stand-Holds}

-- The CIE stands at 0, the FDEs at 20 (for 0x400 to 0x410) and 40 (for 0x420 to 0x440), the table at 64.
abbrev cie_bytes : List ℕ
cie_bytes =
    16 ∷ 0 ∷ 0 ∷ 0 ∷ 0 ∷ 0 ∷ 0 ∷ 0 ∷ 1 ∷ b'z' ∷ b'R' ∷ 0 ∷ 1 ∷ 0x78 ∷ 16 ∷ 1 ∷ 0x1b ∷ 0 ∷ 0 ∷ 0 ∷ []

abbrev fde_bytes : List ℕ
fde_bytes = 16 ∷ 0 ∷ 0 ∷ 0 ∷ 24 ∷ 0 ∷ 0 ∷ 0 ∷ 0xe4 ∷ 3 ∷ 0 ∷ 0 ∷ 16 ∷ 0 ∷ 0 ∷ 0 ∷ 0 ∷ 0 ∷ 0 ∷ 0 ∷ []

abbrev second_bytes : List ℕ
second_bytes =
    16 ∷ 0 ∷ 0 ∷ 0 ∷ 44 ∷ 0 ∷ 0 ∷ 0 ∷ 0xf0 ∷ 3 ∷ 0 ∷ 0 ∷ 32 ∷ 0 ∷ 0 ∷ 0 ∷ 0 ∷ 0 ∷ 0 ∷ 0 ∷ []

abbrev table_bytes : List ℕ
table_bytes =
    0 ∷ 0 ∷ 0 ∷ 0 ∷ 0 ∷ 4 ∷ 0 ∷ 0 ∷ 20 ∷ 0 ∷ 0 ∷ 0 ∷ 0x20 ∷ 4 ∷ 0 ∷ 0 ∷ 40 ∷ 0 ∷ 0 ∷ 0 ∷ []

abbrev pub section_bytes : List ℕ
section_bytes = cie_bytes ++ (fde_bytes ++ (second_bytes ++ table_bytes))

abbrev pub parsed_cie : CieInfo
parsed_cie = record no_cie {
  cie_instr_start = 17;
  cie_instr_end = 20;
  code_align = 1;
  data_align = word_mod - 8;
  ret_addr_column = 16;
  fde_encoding = 0x1b;
  sized_augmentation = true;
}

abbrev pub function_info : (start_ip end_ip fde_instr_start fde_instr_end : ℕ) → ProcInfo
function_info start_ip end_ip fde_instr_start fde_instr_end = record no_info {
  start_ip = start_ip;
  end_ip = end_ip;
  lsda = 0;
  handler = 0;
  format = Format.table;
  unwind_info_size = 96;
  unwind_info =
      some (record parsed_cie { fde_instr_start = fde_instr_start; fde_instr_end = fde_instr_end });
}

abbrev pub fde_addresses : ℕ → ℕ
fde_addresses zero = 20
fde_addresses (suc k) = 40

abbrev pub functions : ℕ → ProcInfo
functions zero = function_info 0x400 0x410 37 40
functions (suc k) = function_info 0x420 0x440 57 60

cie-Holds :
    Holds
      (memory section_bytes)
      0
      (16 ∷ 0 ∷ 0 ∷ 0 ∷ 0 ∷ 0 ∷ 0 ∷ 0 ∷ 1 ∷ b'z' ∷ b'R' ∷ 0 ∷ 1 ∷ 0x78 ∷ 16 ∷ 1 ∷ 0x1b ∷ [])
unfolding dwarf_readu8 stand
cie-Holds =
    stand-Holds (memory section_bytes) 0
      (16 ∷ 0 ∷ 0 ∷ 0 ∷ 0 ∷ 0 ∷ 0 ∷ 0 ∷ 1 ∷ b'z' ∷ b'R' ∷ 0 ∷ 1 ∷ 0x78 ∷ 16 ∷ 1 ∷ 0x1b ∷ []) refl

fde-Holds :
    Holds
      (memory section_bytes)
      20
      (16 ∷ 0 ∷ 0 ∷ 0 ∷ 24 ∷ 0 ∷ 0 ∷ 0 ∷ 0xe4 ∷ 3 ∷ 0 ∷ 0 ∷ 16 ∷ 0 ∷ 0 ∷ 0 ∷ 0 ∷ [])
unfolding dwarf_readu8 stand
fde-Holds =
    stand-Holds (memory section_bytes) 20
      (16 ∷ 0 ∷ 0 ∷ 0 ∷ 24 ∷ 0 ∷ 0 ∷ 0 ∷ 0xe4 ∷ 3 ∷ 0 ∷ 0 ∷ 16 ∷ 0 ∷ 0 ∷ 0 ∷ 0 ∷ []) refl

second-Holds :
    Holds
      (memory section_bytes)
      40
      (16 ∷ 0 ∷ 0 ∷ 0 ∷ 44 ∷ 0 ∷ 0 ∷ 0 ∷ 0xf0 ∷ 3 ∷ 0 ∷ 0 ∷ 32 ∷ 0 ∷ 0 ∷ 0 ∷ 0 ∷ [])
unfolding dwarf_readu8 stand
second-Holds =
    stand-Holds (memory section_bytes) 40
      (16 ∷ 0 ∷ 0 ∷ 0 ∷ 44 ∷ 0 ∷ 0 ∷ 0 ∷ 0xf0 ∷ 3 ∷ 0 ∷ 0 ∷ 32 ∷ 0 ∷ 0 ∷ 0 ∷ 0 ∷ []) refl

text-Holds : Holds (memory section_bytes) 9 (b'z' ∷ b'R' ∷ 0 ∷ [])
unfolding dwarf_readu8 stand
text-Holds = stand-Holds (memory section_bytes) 9 (b'z' ∷ b'R' ∷ 0 ∷ []) refl

parsed : parse_cie (memory section_bytes) 3 0 no_info false ≡ ok parsed_cie
parsed =
    parse_cie-eh_frame (memory section_bytes) no_info (1 ∷ []) (0x78 ∷ []) 16 (1 ∷ []) (omega arith)
      (omega arith) (omega arith) (omega arith) (omega arith) (omega arith) 3 0 16 0 0 0
      (omega arith) (omega arith) 0x1b refl cie-Holds

parse_cie-eh_frame_example : parse_cie (memory section_bytes) 3 0 no_info false ≡ ok parsed_cie
parse_cie-eh_frame_example =
    parse_cie-eh_frame (memory section_bytes) no_info (1 ∷ []) (0x78 ∷ []) 16 (1 ∷ []) (omega arith)
      (omega arith) (omega arith) (omega arith) (omega arith) (omega arith) 3 0 16 0 0 0
      (omega arith) (omega arith) 0x1b refl cie-Holds

extract_proc_info-eh_frame_example :
    dwarf_extract_proc_info_from_fde (memory section_bytes) 3 20 no_info 0 true true false 96
    ≡ ok (function_info 0x400 0x410 37 40, 40)
extract_proc_info-eh_frame_example =
    extract_proc_info-eh_frame (memory section_bytes) no_info parsed_cie 3 20 0 0x400 0 96 16 0 0 0
      24 0 0 0 0xe4 3 0 0 16 0 0 0 (0 ∷ []) refl (omega arith) (omega arith) refl refl (omega arith)
      (omega arith) (omega arith) (omega arith) (omega arith) (omega arith) (omega arith)
      (omega arith) (omega arith) (omega arith) (omega arith) parsed refl refl refl refl fde-Holds

-- What the table's two entries lead to.
pub extracted :
    (k : ℕ)
    → k < 2
    → dwarf_extract_proc_info_from_fde
        (memory section_bytes)
        3
        ((fde_addresses k + 0) % word_mod)
        no_info
        0
        true
        true
        false
        96
      ≡ ok (functions k, 40 + 20 * k)
extracted zero h =
    extract_proc_info-eh_frame (memory section_bytes) no_info parsed_cie 3 20 0 0x400 0 96 16 0 0 0
      24 0 0 0 0xe4 3 0 0 16 0 0 0 (0 ∷ []) refl (omega arith) (omega arith) refl refl (omega arith)
      (omega arith) (omega arith) (omega arith) (omega arith) (omega arith) (omega arith)
      (omega arith) (omega arith) (omega arith) (omega arith) parsed refl refl refl refl fde-Holds
extracted (suc zero) h =
    extract_proc_info-eh_frame (memory section_bytes) no_info parsed_cie 3 40 0 0x420 0 96 16 0 0 0
      44 0 0 0 0xf0 3 0 0 32 0 0 0 (0 ∷ []) refl (omega arith) (omega arith) refl refl (omega arith)
      (omega arith) (omega arith) (omega arith) (omega arith) (omega arith) (omega arith)
      (omega arith) (omega arith) (omega arith) (omega arith) parsed refl refl refl refl
      second-Holds
extracted (suc (suc k)) h = absurd (omega arith)

-- A CIE with the augmentation "zB".
abbrev unknown_bytes : List ℕ
unknown_bytes = 13 ∷ 0 ∷ 0 ∷ 0 ∷ 0 ∷ 0 ∷ 0 ∷ 0 ∷ 1 ∷ b'z' ∷ b'B' ∷ 0 ∷ 1 ∷ 0x78 ∷ 16 ∷ 1 ∷ 0x1b ∷ []

unknown-Holds : Holds (memory unknown_bytes) 0 unknown_bytes
unfolding dwarf_readu8 stand
unknown-Holds = stand-Holds (memory unknown_bytes) 0 unknown_bytes refl

parse_cie-unknown_example :
    (parse_cie (memory unknown_bytes) 3 0 no_info false
      ≡ ok (record no_cie {
        cie_instr_start = 16;
        cie_instr_end = 17;
        code_align = 1;
        data_align = word_mod - 8;
        ret_addr_column = 16;
        fde_encoding = default_encoding (memory unknown_bytes);
        sized_augmentation = true;
      }))
    × (0 < 1 → 1 < word_mod → 16 ≢ (16 + 1) % word_mod)
parse_cie-unknown_example =
    parse_cie-unknown (memory unknown_bytes) no_info (1 ∷ []) (0x78 ∷ []) 16 (1 ∷ []) (omega arith)
      (omega arith) (omega arith) (omega arith) (omega arith) (omega arith) 3 0 13 0 0 0
      (omega arith) (omega arith) b'B' (0x1b ∷ []) (omega arith) (omega arith) (omega arith)
      (omega arith) (omega arith) unknown-Holds
