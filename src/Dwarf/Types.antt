-- ===== src/Dwarf/Types.antt =====
-- The records that the DWARF modules share: `unw_proc_info_t` (include/libunwind-common.h.in) and
-- `struct dwarf_cie_info` (include/dwarf.h).
use libunwind.Prelude.{ℕ, Bool, Option}

pub record CieInfo : Type 0 where
  pub cie_instr_start : ℕ
  pub cie_instr_end : ℕ
  pub fde_instr_start : ℕ
  pub fde_instr_end : ℕ
  pub code_align : ℕ
  pub data_align : ℕ
  pub ret_addr_column : ℕ
  pub handler : ℕ
  pub abi : ℕ
  pub tag : ℕ
  pub fde_encoding : ℕ
  pub lsda_encoding : ℕ
  pub sized_augmentation : Bool
  pub have_abi_marker : Bool
  pub signal_frame : Bool

-- `unw_dyn_info_format_t`, the values of the field `format`.
pub data Format : Type 0 where
  dynamic table remote_table arm_exidx ip_offset remote_table_64 : Format

pub record ProcInfo : Type 0 where
  pub start_ip : ℕ
  pub end_ip : ℕ
  pub lsda : ℕ
  pub handler : ℕ
  pub gp : ℕ
  pub flags : ℕ
  pub format : Format
  pub unwind_info_size : ℕ
  pub unwind_info : Option CieInfo
