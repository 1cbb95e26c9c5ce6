-- ===== src/Dwarf/Cfi/Step.antt =====
-- src/dwarf/Gparser.c: `run_cfi_program`, one call-frame instruction. The instructions are grouped
-- by what they do. On an error the state before the instruction is kept: what an instruction wrote
-- before it failed is dropped by the callers with the whole record.
use libunwind.Prelude.{
  ℕ, ◌+◌, ◌-◌, ◌*◌, ◌%◌, leb, if◌then◌else◌, zero, suc, bit_xor, get_elem?, none, some,
}
use libunwind.Prelude.Bits.{word_mod}
use libunwind.Result.{Result, ok, err, stop, badreg, inval, out_of_bounds, ◌>>=◌}
use libunwind.Dwarf.Read.{Reader, dwarf_readu8, dwarf_readu16, dwarf_readu32, dwarf_readu64}
use libunwind.Dwarf.Leb128.{dwarf_read_uleb128, dwarf_read_sleb128}
use libunwind.Dwarf.Pointer.{dwarf_read_encoded_pointer}
use libunwind.Dwarf.Cfi.State.{
  Where, undef, same, cfarel, reg, expr, val_expr, Cfi, Env, WindowSave, sparc, aarch64, elsewhere,
  cfa_reg_column, cfa_off_column, read_regnum, set_reg, restore_column, remember_state,
  restore_state,
}
use libunwind.Dwarf.Cfi.Opcode.{
  Cfa, advance_loc, offset, restore, nop, set_loc, advance_loc1, advance_loc2, advance_loc4,
  mips_advance_loc8, offset_extended, offset_extended_sf, restore_extended, undefined_, same_value,
  register_, remember, restore_top, def_cfa, def_cfa_sf, def_cfa_register, def_cfa_offset,
  def_cfa_offset_sf, def_cfa_expression, expression, val_expression, args_size,
  negative_offset_extended, window_save, unexpected, unlisted,
}

abbrev pub advance : Env → ℕ → Cfi → Cfi
advance env delta s = record s { ip = (s.ip + delta * env.dci.code_align) % word_mod }

-- An advance whose operand is read.
unfoldable pub exec_advance : Env → Reader → Cfi → Result Cfi
exec_advance env reader s = do
  (delta, addr) ← reader s.addr
  ok (advance env delta (record s { addr = addr }))

abbrev pub factored : Env → ℕ → ℕ
factored env val = val * env.dci.data_align % word_mod

unfoldable pub exec_offset : Env → ℕ → Cfi → Result Cfi
exec_offset env regnum s = if leb env.target.preserved regnum then err badreg else do
  (val, addr) ← dwarf_read_uleb128 env.space s.addr
  set_reg (record s { addr = addr }) regnum cfarel (factored env val)

-- A register operand, a value operand, and what is set from them.
unfoldable pub exec_reg_val : Env → Reader → Where → (ℕ → ℕ) → Cfi → Result Cfi
exec_reg_val env reader place f s = do
  (regnum, addr) ← read_regnum env s.addr
  (val, addr) ← reader addr
  set_reg (record s { addr = addr }) regnum place (f val)

unfoldable pub exec_restore : Env → ℕ → Cfi → Result Cfi
exec_restore env regnum s =
    if leb env.target.preserved regnum then err inval else restore_column s regnum

unfoldable pub exec_restore_extended : Env → Cfi → Result Cfi
exec_restore_extended env s = do
  (regnum, addr) ← dwarf_read_uleb128 env.space s.addr
  exec_restore env regnum (record s { addr = addr })

unfoldable pub exec_set_loc : Env → Cfi → Result Cfi
exec_set_loc env s = do
  (ip, addr) ← dwarf_read_encoded_pointer env.space env.dci.fde_encoding env.pi s.addr
  ok (record s { ip = ip; addr = addr })

-- DW_CFA_undefined and DW_CFA_same_value.
unfoldable pub exec_mark : Env → Where → Cfi → Result Cfi
exec_mark env place s = do
  (regnum, addr) ← read_regnum env s.addr
  set_reg (record s { addr = addr }) regnum place 0

unfoldable pub exec_def_cfa : Env → Reader → (ℕ → ℕ) → Cfi → Result Cfi
exec_def_cfa env reader f s = do
  (regnum, addr) ← read_regnum env s.addr
  (val, addr) ← reader addr
  s ← set_reg (record s { addr = addr }) (cfa_reg_column env.target) reg regnum
  set_reg s (cfa_off_column env.target) undef (f val)

unfoldable pub exec_def_cfa_register : Env → Cfi → Result Cfi
exec_def_cfa_register env s = do
  (regnum, addr) ← read_regnum env s.addr
  set_reg (record s { addr = addr }) (cfa_reg_column env.target) reg regnum

unfoldable pub exec_def_cfa_offset : Env → Reader → (ℕ → ℕ) → Cfi → Result Cfi
exec_def_cfa_offset env reader f s = do
  (val, addr) ← reader s.addr
  set_reg (record s { addr = addr }) (cfa_off_column env.target) undef (f val)

-- The block of an expression is skipped; its address is kept.
abbrev pub skip_block : Env → Cfi → Result Cfi
skip_block env s = do
  (len, addr) ← dwarf_read_uleb128 env.space s.addr
  ok (record s { addr = (addr + len) % word_mod })

unfoldable pub exec_def_cfa_expression : Env → Cfi → Result Cfi
exec_def_cfa_expression env s = do
  s ← set_reg s (cfa_reg_column env.target) expr s.addr
  skip_block env s

unfoldable pub exec_expression : Env → Where → Cfi → Result Cfi
exec_expression env place s = do
  (regnum, addr) ← read_regnum env s.addr
  s ← set_reg (record s { addr = addr }) regnum place addr
  skip_block env s

unfoldable pub exec_args_size : Env → Cfi → Result Cfi
exec_args_size env s = do
  (val, addr) ← dwarf_read_uleb128 env.space s.addr
  ok (record s { addr = addr; args_size = val })

-- The windowed registers of SPARC: columns `first` and on, `n` of them.
unfoldable pub save_window : (n first : ℕ) → Cfi → Result Cfi
save_window zero first s = ok s
save_window (suc n) first s = do
  s ← set_reg s first cfarel ((first - 16) * 8)
  save_window n (first + 1) s

-- aarch64_negate_ra_sign_state
unfoldable pub negate_ra_sign_state : ℕ → Cfi → Result Cfi
negate_ra_sign_state column s = elim (get_elem? s.current.columns column) [
  | none ↦ stop out_of_bounds
  | some c ↦ set_reg s column same (bit_xor c.val 1)
]

unfoldable pub exec_window_save : WindowSave → Cfi → Result Cfi
exec_window_save sparc s = save_window 16 16 s
exec_window_save (aarch64 column) s = negate_ra_sign_state column s
exec_window_save elsewhere s = err inval

-- The `switch`, with `addr` behind the opcode byte.
unfoldable pub exec_cfa : Env → Cfa → Cfi → Result Cfi
exec_cfa env (advance_loc n) s = ok (advance env n s)
exec_cfa env advance_loc1 s = exec_advance env (dwarf_readu8 env.space) s
exec_cfa env advance_loc2 s = exec_advance env (dwarf_readu16 env.space) s
exec_cfa env advance_loc4 s = exec_advance env (dwarf_readu32 env.space) s
exec_cfa env mips_advance_loc8 s =
    if env.target.mips then exec_advance env (dwarf_readu64 env.space) s else err inval
exec_cfa env (offset n) s = exec_offset env n s
exec_cfa env offset_extended s =
    exec_reg_val env (dwarf_read_uleb128 env.space) cfarel (factored env) s
exec_cfa env offset_extended_sf s =
    exec_reg_val env (dwarf_read_sleb128 env.space) cfarel (factored env) s
exec_cfa env (restore n) s = exec_restore env n s
exec_cfa env restore_extended s = exec_restore_extended env s
exec_cfa env nop s = ok s
exec_cfa env set_loc s = exec_set_loc env s
exec_cfa env undefined_ s = exec_mark env undef s
exec_cfa env same_value s = exec_mark env same s
exec_cfa env register_ s = exec_reg_val env (dwarf_read_uleb128 env.space) reg (λ v. v) s
exec_cfa env remember s = remember_state s
exec_cfa env restore_top s = restore_state s
exec_cfa env def_cfa s = exec_def_cfa env (dwarf_read_uleb128 env.space) (λ v. v) s
exec_cfa env def_cfa_sf s = exec_def_cfa env (dwarf_read_sleb128 env.space) (factored env) s
exec_cfa env def_cfa_register s = exec_def_cfa_register env s
exec_cfa env def_cfa_offset s = exec_def_cfa_offset env (dwarf_read_uleb128 env.space) (λ v. v) s
exec_cfa env def_cfa_offset_sf s =
    exec_def_cfa_offset env (dwarf_read_sleb128 env.space) (factored env) s
exec_cfa env def_cfa_expression s = exec_def_cfa_expression env s
exec_cfa env expression s = exec_expression env expr s
exec_cfa env val_expression s = exec_expression env val_expr s
exec_cfa env args_size s = exec_args_size env s
exec_cfa env negative_offset_extended s =
    exec_reg_val env (dwarf_read_uleb128 env.space) cfarel
      (λ v. (word_mod - factored env v) % word_mod) s
exec_cfa env window_save s = exec_window_save env.target.window_save s
exec_cfa env unexpected s = err inval
exec_cfa env unlisted s = ok s
