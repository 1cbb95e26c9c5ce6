-- ===== src/Tests/Cfi.antt =====
-- Running call-frame instructions.
use libunwind.Prelude.{
  ℕ, zero, suc, ◌+◌, ◌-◌, ◌<◌, ◌≡◌, ◌≢◌, refl, arith, true, false, List, [], ◌∷◌, replicate,
}
use libunwind.Prelude.Bits.{word_mod}
use libunwind.Result.{ok, stop, out_of_bounds, out_of_fuel}
use libunwind.Dwarf.Leb128.{read_leb128_loop, dwarf_read_uleb128}
use libunwind.Dwarf.Read.{dwarf_readu8}
use libunwind.Dwarf.Types.{CieInfo}
use libunwind.Dwarf.Cfi.State.{Target, Env, Cfi, WindowSave, RegState, set_reg}
use libunwind.Dwarf.Cfi.Step.{exec_cfa, exec_def_cfa_expression}
use libunwind.Dwarf.Cfi.Opcode.{decode_cfa}
use libunwind.Dwarf.Cfi.Run.{step_cfa, unchanged, run_cfi_program, create_state_record}
use libunwind.Dwarf.Cfi.Invariant.{IsWf, TargetFits}
use libunwind.Dwarf.Cfi.Pool.{Restored, run_cfi_program-IsWf, create_state_record-Restored}
use libunwind.Dwarf.Cfi.Ending.{BlocksFit, run_cfi_program_ends}
use libunwind.Dwarf.Cfi.State.{Column, Where}
use libunwind.Dwarf.Cfi.Table.{
  Rule, Row, Table, Instr, advance_loc, def_cfa_offset, remember_state, restore_state, HoldsRow,
  Stands,
}
use libunwind.Dwarf.Cfi.Interpret.{codes, run_cfi_program-interpret}
use libunwind.Dwarf.Read.Bytes.{Holds}
use libunwind.Dwarf.Leb128.RoundTrip.{uleb128}
use libunwind.Prelude.{◌++◌, some, get_elem?, length}
use libunwind.Tests.Memory.{memory, no_info}

-- As on x86-64: CFA = rsp + 8, rip at CFA - 8; then after one byte of code CFA = rsp + 16, between
-- remembering the state and restoring it.
abbrev program : List ℕ
program = 0x0c ∷ 7 ∷ 8 ∷ 0x90 ∷ 1 ∷ 0x0a ∷ 0x41 ∷ 0x0e ∷ 16 ∷ 0x41 ∷ 0x0b ∷ []

abbrev target : Target
target = record {
  preserved = 17;
  sp = 7;
  sp_is_cfa = true;
  mips = false;
  arm = false;
  window_save = WindowSave.elsewhere;
}

abbrev cie : CieInfo
cie = record {
  cie_instr_start = 0;
  cie_instr_end = 5;
  fde_instr_start = 5;
  fde_instr_end = 11;
  code_align = 1;
  data_align = word_mod - 8;
  ret_addr_column = 16;
  handler = 0;
  abi = 0;
  tag = 0;
  fde_encoding = 0;
  lsda_encoding = 0;
  sized_augmentation = false;
  have_abi_marker = false;
  signal_frame = false;
}

abbrev env : Env
env = record { space = memory program; target = target; dci = cie; pi = no_info }

abbrev columns : RegState
columns = record { ret_addr_column = 16; columns = replicate 19 unchanged }

abbrev start : Cfi
start = record {
  ip = 0x400;
  addr = 5;
  current = columns;
  initial = columns;
  args_size = 0;
  rs_stack = [];
  pool = 3;
}

start-IsWf : IsWf target 3 start
start-IsWf = (refl, refl, tt, refl)

target-fits : TargetFits target
target-fits = (omega arith, tt)

-- CFA = an expression of two bytes; then one byte of code further.
abbrev with_block : List ℕ
with_block = 0x0f ∷ 2 ∷ 0x30 ∷ 0x31 ∷ 0x41 ∷ []

abbrev block_env : Env
block_env = record env { space = memory with_block }

abbrev block_start : Cfi
block_start = record start { addr = 0 }

blocks_fit : BlocksFit block_env 0x401 5 5 block_start
unfolding dwarf_read_uleb128 read_leb128_loop dwarf_readu8 step_cfa decode_cfa exec_cfa
    exec_def_cfa_expression set_reg
blocks_fit _ = (omega arith, λ _. (tt, λ over. cc))

create_state_record-Restored_example : Restored target 3 (create_state_record env 20 3 0x401 0)
create_state_record-Restored_example =
    create_state_record-Restored env (λ a. tt) target-fits 20 3 0x401 0

run_cfi_program-IsWf_example :
    IsWf target 3 (run_cfi_program env 20 0x401 11 start).0
    × ((run_cfi_program env 20 0x401 11 start).1 ≢ stop out_of_bounds)
run_cfi_program-IsWf_example =
    run_cfi_program-IsWf env (λ a. tt) target-fits 3 20 0x401 11 start start-IsWf

run_cfi_program_ends_example :
    (run_cfi_program block_env 6 0x401 5 block_start).1 ≢ stop out_of_fuel
run_cfi_program_ends_example =
    run_cfi_program_ends block_env 5 (omega arith) (λ a. tt) target-fits 3 5 0x401 block_start
      start-IsWf (omega arith) blocks_fit

-- The part of the program from 5 on, as instructions.
abbrev instructions : List Instr
instructions =
    remember_state ∷ advance_loc 1 ∷ def_cfa_offset 16 ∷ advance_loc 1 ∷ restore_state ∷ []

instructions-Holds : Holds (memory program) 5 (codes instructions)
unfolding dwarf_readu8 uleb128
instructions-Holds = (
  omega arith,
  refl,
  (
    omega arith,
    refl,
    (omega arith, refl, (omega arith, refl, (omega arith, refl, (omega arith, refl, tt)))),
  ),
)

-- CFA = rsp + 8 and every register unchanged.
abbrev cfa_columns : List Column
cfa_columns = record { place = Where.reg; val = 7 } ∷ record { place = Where.undef; val = 8 } ∷ []

abbrev row_state : RegState
row_state = record { ret_addr_column = 16; columns = replicate 17 unchanged ++ cfa_columns }

abbrev entry_row : Row
entry_row = record { cfa_register = 7; cfa_offset = 8; rules = λ q. Rule.same }

get_elem?-replicate :
    (n q : ℕ) (c : Column) (rest : List Column)
    → q < n
    → get_elem? (replicate n c ++ rest) q ≡ some c
get_elem?-replicate zero q c rest h = absurd (omega arith)
get_elem?-replicate (suc n) zero c rest h = refl
get_elem?-replicate (suc n) (suc q) c rest h = get_elem?-replicate n q c rest (omega arith)

row_state-HoldsRow : HoldsRow 17 row_state entry_row
row_state-HoldsRow = ((refl, λ q h. get_elem?-replicate 17 q unchanged cfa_columns h), refl, refl)

abbrev entry : Cfi
entry = record {
  ip = 0x400;
  addr = 5;
  current = row_state;
  initial = row_state;
  args_size = 0;
  rs_stack = [];
  pool = 5;
}

abbrev entry_table : Table
entry_table = record { loc = 0x400; row = entry_row; initial = λ q. Rule.same; saved = [] }

abbrev final_table : Table
final_table = record {
  loc = 0x402;
  row = record { cfa_register = 7; cfa_offset = 16; rules = λ q. Rule.same };
  initial = λ q. Rule.same;
  saved = entry_row ∷ [];
}

entry-Stands : Stands 17 entry entry_table
entry-Stands = (refl, row_state-HoldsRow, row_state-HoldsRow.0, tt)

instructions-fit : 5 + length (codes instructions) ≡ 11
unfolding uleb128
instructions-fit = refl

instructions_small : 5 + length (codes instructions) < word_mod
instructions_small = omega (arith, instructions-fit)

run_cfi_program-interpret_example :
    (s' : Cfi) × (run_cfi_program env 6 0x401 (5 + length (codes instructions)) entry ≡ (s', ok tt))
    × Stands 17 s' final_table
run_cfi_program-interpret_example =
    run_cfi_program-interpret env instructions entry entry_table final_table 0x401
      (tt, (omega arith, (omega arith, (omega arith, (tt, tt))))) instructions-Holds
      instructions_small entry-Stands (omega arith) refl
