-- ===== src/Dwarf/Cfi/Preserve.antt =====
-- Each call-frame instruction keeps the invariant.
use libunwind.Prelude.{
  ℕ, zero, suc, ◌+◌, ◌-◌, ◌*◌, ◌≤◌, ◌<◌, ◌≡◌, arith, leb, get_elem?-lt, bit_xor,
}
use libunwind.Result.{Result, ok, ◌>>=◌, Safe, Safe-bind, Safe-if}
use libunwind.Dwarf.Read.{Reader, dwarf_readu64}
use libunwind.Dwarf.Read.Safe.{Answers, readu8-Safe, readu16-Safe, readu32-Safe, readu64-Safe}
use libunwind.Dwarf.Leb128.{dwarf_read_uleb128}
use libunwind.Dwarf.Leb128.Safe.{uleb128-Safe, sleb128-Safe}
use libunwind.Dwarf.Pointer.{dwarf_read_encoded_pointer}
use libunwind.Dwarf.Pointer.Safe.{read_encoded_pointer-Safe}
use libunwind.Dwarf.Cfi.State.{
  Cfi, Env, Where, set_reg, read_regnum, cfa_reg_column, cfa_off_column, same, cfarel, reg, expr,
  undef, WindowSave, sparc, aarch64, elsewhere,
}
use libunwind.Dwarf.Cfi.Opcode.{
  Cfa, advance_loc, offset, restore, nop, set_loc, advance_loc1, advance_loc2, advance_loc4,
  mips_advance_loc8, offset_extended, offset_extended_sf, restore_extended, undefined_, same_value,
  register_, remember, restore_top, def_cfa, def_cfa_sf, def_cfa_register, def_cfa_offset,
  def_cfa_offset_sf, def_cfa_expression, expression, val_expression, args_size,
  negative_offset_extended, window_save, unexpected, unlisted,
}
use libunwind.Dwarf.Cfi.Step.{
  exec_advance, exec_offset, exec_reg_val, exec_restore, exec_restore_extended, exec_set_loc,
  exec_mark, exec_def_cfa, exec_def_cfa_register, exec_def_cfa_offset, skip_block,
  exec_def_cfa_expression, exec_expression, exec_args_size, save_window, negate_ra_sign_state,
  exec_window_save, exec_cfa,
}
use libunwind.Dwarf.Cfi.Invariant.{
  columns_of, IsWf, TargetFits, WindowFits, Ensures, Ensures-bind, Ensures-then, Ensures-if,
  set_reg-Ensures, restore_column-Ensures, remember_state-Ensures, restore_state-Ensures,
}

-- A register number that is read is below the number of preserved registers.
read_regnum_range :
    (env : Env) (addr regnum next : ℕ)
    → read_regnum env addr ≡ ok (regnum, next)
    → regnum < env.target.preserved
unfolding read_regnum
read_regnum_range env addr regnum next h = ground arith

module _ (env : Env) (answers : Answers env.space) (total : ℕ) where
  abbrev Keeps : Result Cfi → Type 0
  Keeps r = Ensures env.target total r

  abbrev Good : Cfi → Type 0
  Good s = IsWf env.target total s

  abbrev Total : Reader → Type 0
  Total reader = (addr : ℕ) → Safe (reader addr)

  read_regnum-Safe : (addr : ℕ) → Safe (read_regnum env addr)
  unfolding read_regnum
  read_regnum-Safe addr =
      Safe-bind (dwarf_read_uleb128 env.space addr) _ (uleb128-Safe env.space answers addr)
        (λ r. Safe-if (leb env.target.preserved r.0) _ _ tt tt)

  -- A register number, then what is done with it.
  with_regnum :
      (addr : ℕ) (f : ℕ × ℕ → Result Cfi)
      → ((regnum next : ℕ) → regnum < env.target.preserved → Keeps (f (regnum, next)))
      → Keeps (read_regnum env addr >>= f)
  with_regnum addr f h =
      Ensures-bind env.target total (read_regnum env addr) f (read_regnum-Safe addr)
        (λ r e. h r.0 r.1 (read_regnum_range env addr r.0 r.1 e))

  with_value :
      (reader : Reader) (addr : ℕ) (f : ℕ × ℕ → Result Cfi)
      → Total reader
      → ((v next : ℕ) → Keeps (f (v, next)))
      → Keeps (reader addr >>= f)
  with_value reader addr f t h =
      Ensures-bind env.target total (reader addr) f (t addr) (λ r e. h r.0 r.1)

  uleb : Total (dwarf_read_uleb128 env.space)
  uleb = uleb128-Safe env.space answers

  module _ (s : Cfi) (wf : Good s) where
    exec_advance-Keeps : (reader : Reader) → Total reader → Keeps (exec_advance env reader s)
    unfolding exec_advance
    exec_advance-Keeps reader t = with_value reader s.addr _ t (λ v next. wf)

    exec_offset-Keeps : (regnum : ℕ) → Keeps (exec_offset env regnum s)
    unfolding exec_offset
    exec_offset-Keeps regnum =
        Ensures-if env.target total (leb env.target.preserved regnum) _ _ tt (λ low.
          with_value (dwarf_read_uleb128 env.space) s.addr _ uleb (λ v next.
            set_reg-Ensures env.target total (record s { addr = next }) wf regnum cfarel _
              (ground arith)))

    exec_reg_val-Keeps :
        (reader : Reader) (w : Where) (f : ℕ → ℕ)
        → Total reader
        → Keeps (exec_reg_val env reader w f s)
    unfolding exec_reg_val
    exec_reg_val-Keeps reader w f t = with_regnum s.addr _ (λ regnum next low.
        with_value reader next _ t (λ v last.
          set_reg-Ensures env.target total (record s { addr = last }) wf regnum w (f v)
            (omega arith)))

    exec_restore-Keeps : (regnum : ℕ) → Keeps (exec_restore env regnum s)
    unfolding exec_restore
    exec_restore-Keeps regnum =
        Ensures-if env.target total (leb env.target.preserved regnum) _ _ tt
          (λ low. restore_column-Ensures env.target total s wf regnum (ground arith))

    exec_set_loc-Keeps : Keeps (exec_set_loc env s)
    unfolding exec_set_loc
    exec_set_loc-Keeps =
        with_value (dwarf_read_encoded_pointer env.space env.dci.fde_encoding env.pi) s.addr _
          (λ addr. read_encoded_pointer-Safe env.space answers env.dci.fde_encoding addr env.pi)
          (λ v next. wf)

    exec_mark-Keeps : (w : Where) → Keeps (exec_mark env w s)
    unfolding exec_mark
    exec_mark-Keeps w = with_regnum s.addr _ (λ regnum next low.
        set_reg-Ensures env.target total (record s { addr = next }) wf regnum w 0 (omega arith))

    exec_def_cfa-Keeps :
        (reader : Reader) (f : ℕ → ℕ) → Total reader → Keeps (exec_def_cfa env reader f s)
    unfolding exec_def_cfa
    exec_def_cfa-Keeps reader f t = with_regnum s.addr _ (λ regnum next low.
        with_value reader next _ t (λ v last.
          Ensures-then env.target total
            (set_reg (record s { addr = last }) (cfa_reg_column env.target) reg regnum) _
            (set_reg-Ensures env.target total (record s { addr = last }) wf
              (cfa_reg_column env.target) reg regnum (omega arith))
            (λ s' wf'.
              set_reg-Ensures env.target total s' wf' (cfa_off_column env.target) undef (f v)
                (omega arith))))

    exec_def_cfa_register-Keeps : Keeps (exec_def_cfa_register env s)
    unfolding exec_def_cfa_register
    exec_def_cfa_register-Keeps = with_regnum s.addr _ (λ regnum next low.
        set_reg-Ensures env.target total (record s { addr = next }) wf (cfa_reg_column env.target)
          reg regnum (omega arith))

    exec_def_cfa_offset-Keeps :
        (reader : Reader) (f : ℕ → ℕ) → Total reader → Keeps (exec_def_cfa_offset env reader f s)
    unfolding exec_def_cfa_offset
    exec_def_cfa_offset-Keeps reader f t = with_value reader s.addr _ t (λ v next.
        set_reg-Ensures env.target total (record s { addr = next }) wf (cfa_off_column env.target)
          undef (f v) (omega arith))

    skip_block-Keeps : Keeps (skip_block env s)
    skip_block-Keeps = with_value (dwarf_read_uleb128 env.space) s.addr _ uleb (λ v next. wf)

    exec_args_size-Keeps : Keeps (exec_args_size env s)
    unfolding exec_args_size
    exec_args_size-Keeps = with_value (dwarf_read_uleb128 env.space) s.addr _ uleb (λ v next. wf)

  exec_def_cfa_expression-Keeps : (s : Cfi) → Good s → Keeps (exec_def_cfa_expression env s)
  unfolding exec_def_cfa_expression
  exec_def_cfa_expression-Keeps s wf =
      Ensures-then env.target total (set_reg s (cfa_reg_column env.target) expr s.addr) _
        (set_reg-Ensures env.target total s wf (cfa_reg_column env.target) expr s.addr
          (omega arith))
        skip_block-Keeps

  exec_expression-Keeps : (s : Cfi) → Good s → (w : Where) → Keeps (exec_expression env w s)
  unfolding exec_expression
  exec_expression-Keeps s wf w = with_regnum s.addr _ (λ regnum next low.
      Ensures-then env.target total (set_reg (record s { addr = next }) regnum w next) _
        (set_reg-Ensures env.target total (record s { addr = next }) wf regnum w next (omega arith))
        skip_block-Keeps)

  exec_restore_extended-Keeps : (s : Cfi) → Good s → Keeps (exec_restore_extended env s)
  unfolding exec_restore_extended
  exec_restore_extended-Keeps s wf =
      with_value (dwarf_read_uleb128 env.space) s.addr _ uleb
        (λ v next. exec_restore-Keeps (record s { addr = next }) wf v)

  save_window-Keeps :
      (n first : ℕ) (s : Cfi)
      → Good s
      → first + n ≤ columns_of env.target
      → Keeps (save_window n first s)
  unfolding save_window
  save_window-Keeps zero first s wf h = wf
  save_window-Keeps (suc n) first s wf h =
      Ensures-then env.target total (set_reg s first cfarel ((first - 16) * 8)) _
        (set_reg-Ensures env.target total s wf first cfarel ((first - 16) * 8) (omega arith))
        (λ s' wf'. save_window-Keeps n (first + 1) s' wf' (omega arith))

  negate_ra_sign_state-Keeps :
      (column : ℕ) (s : Cfi)
      → Good s
      → column < columns_of env.target
      → Keeps (negate_ra_sign_state column s)
  unfolding negate_ra_sign_state
  negate_ra_sign_state-Keeps column s wf h =
      let (c, e) = get_elem?-lt s.current.columns column (omega arith) in
      ground (arith, e, set_reg-Ensures env.target total s wf column same (bit_xor c.val 1) h)

  exec_window_save-Keeps :
      (w : WindowSave) (s : Cfi) → Good s → WindowFits env.target w → Keeps (exec_window_save w s)
  unfolding exec_window_save
  exec_window_save-Keeps sparc s wf fits = save_window-Keeps 16 16 s wf (omega arith)
  exec_window_save-Keeps (aarch64 column) s wf fits = negate_ra_sign_state-Keeps column s wf fits
  exec_window_save-Keeps elsewhere s wf fits = tt

  module _ (s : Cfi) (wf : Good s) where
    exec_mips-Keeps : Keeps (exec_cfa env mips_advance_loc8 s)
    unfolding exec_cfa
    exec_mips-Keeps =
        ground (
          arith,
          exec_advance-Keeps s wf (dwarf_readu64 env.space) (readu64-Safe env.space answers),
        )

    pub exec_cfa-Keeps : TargetFits env.target → (i : Cfa) → Keeps (exec_cfa env i s)
    unfolding exec_cfa
    exec_cfa-Keeps t (advance_loc n) = wf
    exec_cfa-Keeps t advance_loc1 = exec_advance-Keeps s wf _ (readu8-Safe env.space answers)
    exec_cfa-Keeps t advance_loc2 = exec_advance-Keeps s wf _ (readu16-Safe env.space answers)
    exec_cfa-Keeps t advance_loc4 = exec_advance-Keeps s wf _ (readu32-Safe env.space answers)
    exec_cfa-Keeps t mips_advance_loc8 = exec_mips-Keeps
    exec_cfa-Keeps t (offset n) = exec_offset-Keeps s wf n
    exec_cfa-Keeps t offset_extended = exec_reg_val-Keeps s wf _ cfarel _ uleb
    exec_cfa-Keeps t offset_extended_sf =
        exec_reg_val-Keeps s wf _ cfarel _ (sleb128-Safe env.space answers)
    exec_cfa-Keeps t (restore n) = exec_restore-Keeps s wf n
    exec_cfa-Keeps t restore_extended = exec_restore_extended-Keeps s wf
    exec_cfa-Keeps t nop = wf
    exec_cfa-Keeps t set_loc = exec_set_loc-Keeps s wf
    exec_cfa-Keeps t undefined_ = exec_mark-Keeps s wf undef
    exec_cfa-Keeps t same_value = exec_mark-Keeps s wf same
    exec_cfa-Keeps t register_ = exec_reg_val-Keeps s wf _ reg _ uleb
    exec_cfa-Keeps t remember = remember_state-Ensures env.target total s wf
    exec_cfa-Keeps t restore_top = restore_state-Ensures env.target total s wf
    exec_cfa-Keeps t def_cfa = exec_def_cfa-Keeps s wf _ _ uleb
    exec_cfa-Keeps t def_cfa_sf = exec_def_cfa-Keeps s wf _ _ (sleb128-Safe env.space answers)
    exec_cfa-Keeps t def_cfa_register = exec_def_cfa_register-Keeps s wf
    exec_cfa-Keeps t def_cfa_offset = exec_def_cfa_offset-Keeps s wf _ _ uleb
    exec_cfa-Keeps t def_cfa_offset_sf =
        exec_def_cfa_offset-Keeps s wf _ _ (sleb128-Safe env.space answers)
    exec_cfa-Keeps t def_cfa_expression = exec_def_cfa_expression-Keeps s wf
    exec_cfa-Keeps t expression = exec_expression-Keeps s wf _
    exec_cfa-Keeps t val_expression = exec_expression-Keeps s wf _
    exec_cfa-Keeps t args_size = exec_args_size-Keeps s wf
    exec_cfa-Keeps t negative_offset_extended = exec_reg_val-Keeps s wf _ cfarel _ uleb
    exec_cfa-Keeps t window_save = exec_window_save-Keeps env.target.window_save s wf t.1
    exec_cfa-Keeps t unexpected = tt
    exec_cfa-Keeps t unlisted = wf
