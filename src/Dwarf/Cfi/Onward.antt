-- ===== src/Dwarf/Cfi/Onward.antt =====
-- An instruction's whole round leads forward: its opcode byte at least is read.
use libunwind.Prelude.{
  ℕ, zero, suc, ◌+◌, ◌-◌, ◌*◌, ◌≤◌, ◌<◌, arith, bit_xor, sym, get_elem?, none, some, Option,
}
use mathlib.Core.Path.{subst}
use libunwind.Prelude.Bits.{word_mod}
use libunwind.Result.{Result, ok, err, stop, out_of_bounds, ◌>>=◌, Gives, Gives-eq}
use libunwind.Dwarf.Read.{dwarf_readu8, dwarf_readu64}
use libunwind.Dwarf.Leb128.{dwarf_read_uleb128}
use libunwind.Dwarf.Lands.{
  Lands, next_of, readu8-Lands, readu8-Moves, readu16-Moves, readu32-Moves, readu64-Moves,
  uleb128-Moves, sleb128-Moves,
}
use libunwind.Dwarf.Cfi.State.{
  Cfi, Env, Column, Where, set_reg, read_regnum, restore_state, cfa_reg_column, same, cfarel, reg,
  expr, undef, WindowSave, sparc, aarch64, elsewhere,
}
use libunwind.Dwarf.Cfi.Opcode.{
  Cfa, decode_cfa, advance_loc, offset, restore, nop, set_loc, advance_loc1, advance_loc2,
  advance_loc4, mips_advance_loc8, offset_extended, offset_extended_sf, restore_extended,
  undefined_, same_value, register_, remember, restore_top, def_cfa, def_cfa_sf, def_cfa_register,
  def_cfa_offset, def_cfa_offset_sf, def_cfa_expression, expression, val_expression, args_size,
  negative_offset_extended, window_save, unexpected, unlisted,
}
use libunwind.Dwarf.Cfi.Step.{
  exec_restore_extended, exec_def_cfa_expression, exec_expression, save_window,
  negate_ra_sign_state, exec_window_save, exec_cfa,
}
use libunwind.Dwarf.Cfi.Run.{step_cfa}
use libunwind.Dwarf.Cfi.Forward.{
  From, BlockFits, set_reg-From, set_reg-Stays, remember_state-From, restore_from-From, From-stay,
  From-if, From-read, read_regnum-Moves, exec_advance-From, exec_offset-From, exec_reg_val-From,
  exec_restore-From, exec_set_loc-From, exec_mark-From, exec_def_cfa-From,
  exec_def_cfa_register-From, exec_def_cfa_offset-From, skip_block-From, exec_args_size-From,
}

save_window-From : (n first : ℕ) (s : Cfi) (lo : ℕ) → lo ≤ s.addr → From lo (save_window n first s)
unfolding save_window
save_window-From zero first s lo h = h
save_window-From (suc n) first s lo h =
    From-stay lo s.addr (set_reg s first cfarel ((first - 16) * 8)) _
      (set_reg-Stays s first cfarel ((first - 16) * 8))
      (λ s' at. save_window-From n (first + 1) s' lo (omega arith))

negate_ra_sign_state-From :
    (column : ℕ) (s : Cfi) (lo : ℕ) → lo ≤ s.addr → From lo (negate_ra_sign_state column s)
unfolding negate_ra_sign_state
negate_ra_sign_state-From column s lo h = go (get_elem? s.current.columns column)
  where
    go :
        (c : Option Column)
        → From lo (elim c [
          | none ↦ stop out_of_bounds
          | some c ↦ set_reg s column same (bit_xor c.val 1)
        ])
    go none = tt
    go (some c) = set_reg-From s column same (bit_xor c.val 1) lo h

exec_window_save-From :
    (w : WindowSave) (s : Cfi) (lo : ℕ) → lo ≤ s.addr → From lo (exec_window_save w s)
unfolding exec_window_save
exec_window_save-From sparc s lo h = save_window-From 16 16 s lo h
exec_window_save-From (aarch64 column) s lo h = negate_ra_sign_state-From column s lo h
exec_window_save-From elsewhere s lo h = tt

-- The block of an instruction whose operands stand at an address.
abbrev pub OperandsFit : Env → Cfa → (addr : ℕ) → Type 0
OperandsFit env def_cfa_expression addr = BlockFits env addr
OperandsFit env expression addr = Gives (λ (r : ℕ × ℕ). BlockFits env r.1) (read_regnum env addr)
OperandsFit env val_expression addr =
    Gives (λ (r : ℕ × ℕ). BlockFits env r.1) (read_regnum env addr)
OperandsFit env i addr = Unit

-- The instruction at a state's address.
abbrev pub InstructionFits : Env → Cfi → Type 0
InstructionFits env s =
    Gives (λ (r : ℕ × ℕ). OperandsFit env (decode_cfa r.0) r.1) (dwarf_readu8 env.space s.addr)

module _ (env : Env) (limit : ℕ) (room : limit + 64 < word_mod) where
  module _ (s : Cfi) (lo : ℕ) (h : lo ≤ s.addr) (near : s.addr ≤ limit + 1) where
    near' : s.addr ≤ limit + 16
    near' = omega arith

    exec_restore_extended-From : From lo (exec_restore_extended env s)
    unfolding exec_restore_extended
    exec_restore_extended-From =
        From-read lo 11 (dwarf_read_uleb128 env.space) s.addr _ (uleb128-Moves env.space)
          (omega arith)
          (λ v next e p q.
            exec_restore-From env limit room (record s { addr = next }) lo (omega arith)
              (omega arith) v)

    exec_def_cfa_expression-From : BlockFits env s.addr → From lo (exec_def_cfa_expression env s)
    unfolding exec_def_cfa_expression
    exec_def_cfa_expression-From fits =
        From-stay lo s.addr (set_reg s (cfa_reg_column env.target) expr s.addr) _
          (set_reg-Stays s (cfa_reg_column env.target) expr s.addr)
          (λ s' at.
            skip_block-From env limit room s' lo (omega arith) (omega arith)
              (subst (BlockFits env) (sym at) fits))

    exec_expression-From :
        (w : Where)
        → Gives (λ (r : ℕ × ℕ). BlockFits env r.1) (read_regnum env s.addr)
        → From lo (exec_expression env w s)
    unfolding exec_expression
    exec_expression-From w fits =
        From-read lo 11 (read_regnum env) s.addr _ (read_regnum-Moves env) (omega arith)
          (λ regnum next e p q.
            From-stay lo next (set_reg (record s { addr = next }) regnum w next) _
              (set_reg-Stays (record s { addr = next }) regnum w next)
              (λ s' at. skip_block-From env limit room s' lo (omega arith) (omega arith) (
                subst (BlockFits env) (sym at) (
                  Gives-eq (λ (r : ℕ × ℕ). BlockFits env r.1) (read_regnum env s.addr)
                    (regnum, next) fits e))))

    exec_mips-From : From lo (exec_cfa env mips_advance_loc8 s)
    unfolding exec_cfa
    exec_mips-From =
        From-if lo env.target.mips _ _
          (exec_advance-From env limit room s lo h near' 8 (dwarf_readu64 env.space)
            (readu64-Moves env.space) (omega arith))
          tt

    pub exec_cfa-From : (i : Cfa) → OperandsFit env i s.addr → From lo (exec_cfa env i s)
    unfolding exec_cfa
    exec_cfa-From (advance_loc n) fits = h
    exec_cfa-From advance_loc1 fits =
        exec_advance-From env limit room s lo h near' 1 _ (readu8-Moves env.space) (omega arith)
    exec_cfa-From advance_loc2 fits =
        exec_advance-From env limit room s lo h near' 2 _ (readu16-Moves env.space) (omega arith)
    exec_cfa-From advance_loc4 fits =
        exec_advance-From env limit room s lo h near' 4 _ (readu32-Moves env.space) (omega arith)
    exec_cfa-From mips_advance_loc8 fits = exec_mips-From
    exec_cfa-From (offset n) fits = exec_offset-From env limit room s lo h near' n
    exec_cfa-From offset_extended fits =
        exec_reg_val-From env limit room s lo h near' _ cfarel _ (uleb128-Moves env.space)
    exec_cfa-From offset_extended_sf fits =
        exec_reg_val-From env limit room s lo h near' _ cfarel _ (sleb128-Moves env.space)
    exec_cfa-From (restore n) fits = exec_restore-From env limit room s lo h near' n
    exec_cfa-From restore_extended fits = exec_restore_extended-From
    exec_cfa-From nop fits = h
    exec_cfa-From set_loc fits = exec_set_loc-From env limit room s lo h near'
    exec_cfa-From undefined_ fits = exec_mark-From env limit room s lo h near' undef
    exec_cfa-From same_value fits = exec_mark-From env limit room s lo h near' same
    exec_cfa-From register_ fits =
        exec_reg_val-From env limit room s lo h near' _ reg _ (uleb128-Moves env.space)
    exec_cfa-From remember fits = remember_state-From s lo h
    exec_cfa-From restore_top fits = unfold restore_state in restore_from-From s s.rs_stack lo h
    exec_cfa-From def_cfa fits =
        exec_def_cfa-From env limit room s lo h near' _ _ (uleb128-Moves env.space)
    exec_cfa-From def_cfa_sf fits =
        exec_def_cfa-From env limit room s lo h near' _ _ (sleb128-Moves env.space)
    exec_cfa-From def_cfa_register fits = exec_def_cfa_register-From env limit room s lo h near'
    exec_cfa-From def_cfa_offset fits =
        exec_def_cfa_offset-From env limit room s lo h near' _ _ (uleb128-Moves env.space)
    exec_cfa-From def_cfa_offset_sf fits =
        exec_def_cfa_offset-From env limit room s lo h near' _ _ (sleb128-Moves env.space)
    exec_cfa-From def_cfa_expression fits = exec_def_cfa_expression-From fits
    exec_cfa-From expression fits = exec_expression-From _ fits
    exec_cfa-From val_expression fits = exec_expression-From _ fits
    exec_cfa-From args_size fits = exec_args_size-From env limit room s lo h near'
    exec_cfa-From negative_offset_extended fits =
        exec_reg_val-From env limit room s lo h near' _ cfarel _ (uleb128-Moves env.space)
    exec_cfa-From window_save fits = exec_window_save-From env.target.window_save s lo h
    exec_cfa-From unexpected fits = tt
    exec_cfa-From unlisted fits = h

  -- An instruction takes its opcode byte at least.
  pub step_cfa-From :
      (s : Cfi) → s.addr < limit → InstructionFits env s → From (s.addr + 1) (step_cfa env s)
  unfolding step_cfa
  step_cfa-From s before fits =
      go (dwarf_readu8 env.space s.addr) (readu8-Lands env.space s.addr (omega arith)) fits
    where
      go :
          (m : Result (ℕ × ℕ))
          → Lands next_of (s.addr + 1) (s.addr + 1) m
          → Gives (λ (r : ℕ × ℕ). OperandsFit env (decode_cfa r.0) r.1) m
          → From (s.addr + 1) (m >>= λ r. exec_cfa env (decode_cfa r.0) (record s { addr = r.1 }))
      go (ok (op, next)) p q =
          exec_cfa-From (record s { addr = next }) (s.addr + 1) p.0 (omega arith) (decode_cfa op) q
      go (err e) p q = tt
      go (stop x) p q = tt
