-- ===== src/Dwarf/Cfi/Pool.antt =====
-- Whole runs: no write out of bounds, and every remembered state goes back to the pool.
use libunwind.Prelude.{
  ℕ, zero, suc, ◌+◌, ◌-◌, ◌%◌, ◌<◌, ◌≡◌, ◌≢◌, refl, sym, ◌∙◌, arith, List, [], ◌∷◌, length, leb,
  ltb, ◌&&◌, Bool-cases, inl, inr, replicate, length-replicate, length-set, set, true, false, Bool,
  if◌then◌else◌,
}
use mathlib.Core.Path.{subst}
use native.Mathlib.Nat.{add-zero}
use libunwind.Prelude.Bits.{word_mod}
use libunwind.Result.{
  Result, ok, err, stop, aborted, undefined, out_of_bounds, out_of_fuel, Error, inval, noinfo,
}
use libunwind.Dwarf.Read.{dwarf_readu8}
use libunwind.Dwarf.Read.Safe.{Answers, readu8-Safe}
use libunwind.Dwarf.Types.{
  Format, dynamic, table, remote_table, arm_exidx, ip_offset, remote_table_64,
}
use libunwind.Dwarf.Cfi.State.{
  RegState, Cfi, Env, Target, Column, cfa, set_column, empty_rstate_stack,
}
use libunwind.Dwarf.Cfi.Opcode.{decode_cfa}
use libunwind.Dwarf.Cfi.Run.{
  step_cfa, go_on, run_cfi_program, StateRecord, blank, unchanged, default_columns, drop_stack,
  cie_start, cie_result, run_cie, setup_fde, fde_start, fde_result, parse_fde, parse_after,
  parse_dynamic, create_by_format, create_state_record,
}
use libunwind.Dwarf.Cfi.Invariant.{columns_of, Full, IsWf, TargetFits, Ensures, Ensures-bind}
use libunwind.Dwarf.Cfi.Preserve.{exec_cfa-Keeps}

empty_rstate_stack-length :
    (stack : List RegState) (pool : ℕ) → empty_rstate_stack stack pool ≡ pool + length stack
unfolding empty_rstate_stack
empty_rstate_stack-length [] pool = omega arith
empty_rstate_stack-length (rs ∷ rest) pool =
    omega (arith, empty_rstate_stack-length rest (pool + 1))

module _ (env : Env) (answers : Answers env.space) (fits : TargetFits env.target) (total : ℕ) where
  pub step_cfa-Ensures :
      (s : Cfi) → IsWf env.target total s → Ensures env.target total (step_cfa env s)
  unfolding step_cfa
  step_cfa-Ensures s wf =
      Ensures-bind env.target total (dwarf_readu8 env.space s.addr) _
        (readu8-Safe env.space answers s.addr)
        (λ r e. exec_cfa-Keeps env answers total (record s { addr = r.1 }) wf fits (decode_cfa r.0))

  -- What holds of a run's end.
  abbrev Ended : Cfi × Result (Unit {0}) → Type 0
  Ended (s, r) = IsWf env.target total s × (r ≢ stop out_of_bounds)

  go_on-Ended :
      (s : Cfi) (r : Result Cfi) (rest : Cfi → Cfi × Result (Unit {0}))
      → IsWf env.target total s
      → Ensures env.target total r
      → ((s' : Cfi) → IsWf env.target total s' → Ended (rest s'))
      → Ended (go_on s r rest)
  go_on-Ended s (ok s') rest wf h k = k s' h
  go_on-Ended s (err e) rest wf h k = (wf, λ p. cc)
  go_on-Ended s (stop aborted) rest wf h k = (wf, λ p. cc)
  go_on-Ended s (stop undefined) rest wf h k = (wf, λ p. cc)
  go_on-Ended s (stop out_of_bounds) rest wf h k = absurd h
  go_on-Ended s (stop out_of_fuel) rest wf h k = absurd h

  if-Ended :
      (b : Bool) (x y : Cfi × Result (Unit {0})) → Ended x → Ended y → Ended (if b then x else y)
  if-Ended true x y h k = h
  if-Ended false x y h k = k

  -- Where `access_mem` always answers and the target's own columns are columns: from a well-formed
  -- state `run_cfi_program` leaves a well-formed state, with every register state accounted for,
  -- however it ends, and it writes no column out of bounds.
  pub run_cfi_program-IsWf :
      (fuel end_ip end_addr : ℕ) (s : Cfi)
      → IsWf env.target total s
      → IsWf env.target total (run_cfi_program env fuel end_ip end_addr s).0
        × ((run_cfi_program env fuel end_ip end_addr s).1 ≢ stop out_of_bounds)
  unfolding run_cfi_program
  run_cfi_program-IsWf zero end_ip end_addr s wf = (wf, λ e. cc)
  run_cfi_program-IsWf (suc fuel) end_ip end_addr s wf =
      if-Ended (leb s.ip end_ip && ltb s.addr end_addr) _ _
        (go_on-Ended s (step_cfa env s) (run_cfi_program env fuel end_ip end_addr) wf
          (step_cfa-Ensures s wf) (run_cfi_program-IsWf fuel end_ip end_addr))
        (wf, λ e. cc)

default_columns-Full :
    (t : Target) (column : ℕ)
    → t.sp < columns_of t
    → (rs : RegState) × (default_columns t column ≡ ok rs) × Full t rs
unfolding default_columns set_column
default_columns-Full t column h =
    let cols : List Column = replicate (t.preserved + 2) unchanged in
    let sp_column : Column = record { place = cfa; val = 0 } in
    let len : length cols ≡ t.preserved + 2 = length-replicate (t.preserved + 2) unchanged in
    elim (Bool-cases t.sp_is_cfa) [
      | inl sp ↦ (
        record { ret_addr_column = column; columns = set cols t.sp sp_column },
        ground (arith, sp, len),
        length-set cols t.sp sp_column ∙ len,
      )
      | inr no_sp ↦
          (record { ret_addr_column = column; columns = cols }, ground (arith, no_sp), len)
    ]

-- The pool is as full as before, and a record, if there is one, has full arrays.
abbrev pub Restored : Target → ℕ → Result StateRecord × ℕ → Type 0
Restored t pool (ok sr, pool') = (pool' ≡ pool) × Full t sr.rs_current × Full t sr.rs_initial
Restored t pool (err e, pool') = pool' ≡ pool
Restored t pool (stop x, pool') = pool' ≡ pool

drop_stack-Restored :
    (t : Target) (pool : ℕ) (s : Cfi) (r : Result (Unit {0})) (f : Cfi → StateRecord)
    → IsWf t pool s
    → Full t (f s).rs_current
    → Full t (f s).rs_initial
    → Restored t pool (drop_stack (s, r) f)
drop_stack-Restored t pool s (ok u) f wf hc hi =
    (empty_rstate_stack-length s.rs_stack s.pool ∙ wf.3, hc, hi)
drop_stack-Restored t pool s (err e) f wf hc hi = empty_rstate_stack-length s.rs_stack s.pool ∙ wf.3
drop_stack-Restored t pool s (stop x) f wf hc hi =
    empty_rstate_stack-length s.rs_stack s.pool ∙ wf.3

module _ (env : Env) (answers : Answers env.space) (fits : TargetFits env.target) where
  setup_fde-Restored : (fuel pool : ℕ) → Restored env.target pool (setup_fde env fuel pool)
  unfolding setup_fde run_cie
  setup_fde-Restored fuel pool =
      let (rs, e, full) = default_columns-Full env.target env.dci.ret_addr_column fits.0 in
      let start : Cfi = cie_start env pool rs in
      let (s, r) = run_cfi_program env fuel (word_mod - 1) env.dci.cie_instr_end start in
      let wf : IsWf env.target pool s =
        (run_cfi_program-IsWf env answers fits pool fuel (word_mod - 1) env.dci.cie_instr_end start
          (full, length-replicate (env.target.preserved + 2) blank, tt, add-zero pool)).0 in
      subst (λ d. Restored env.target pool (run_cie env fuel pool d)) (sym e)
        (drop_stack-Restored env.target pool s r cie_result wf wf.0 wf.0)

  parse_fde-Restored :
      (fuel pool ip back : ℕ) (sr : StateRecord)
      → Full env.target sr.rs_current
      → Full env.target sr.rs_initial
      → Restored env.target pool (parse_fde env fuel pool ip back sr)
  unfolding parse_fde
  parse_fde-Restored fuel pool ip back sr hc hi =
      let end_ip : ℕ = (ip + word_mod - back) % word_mod in
      let start : Cfi = fde_start env pool sr in
      let (s, r) = run_cfi_program env fuel end_ip env.dci.fde_instr_end start in
      let wf : IsWf env.target pool s =
        (run_cfi_program-IsWf env answers fits pool fuel end_ip env.dci.fde_instr_end start
          (hc, hi, tt, add-zero pool)).0 in
      drop_stack-Restored env.target pool s r fde_result wf wf.0 wf.1

  parse_after-Restored :
      (fuel pool ip back : ℕ) (p : Result StateRecord × ℕ)
      → Restored env.target pool p
      → Restored env.target pool (parse_after env fuel ip back p)
  unfolding parse_after
  parse_after-Restored fuel pool ip back (ok sr, pool') (e, hc, hi) =
      subst (λ n. Restored env.target n (parse_fde env fuel pool' ip back sr)) e
        (parse_fde-Restored fuel pool' ip back sr hc hi)
  parse_after-Restored fuel pool ip back (err x, pool') h = h
  parse_after-Restored fuel pool ip back (stop x, pool') h = h

  if-Restored :
      (b : Bool) (x y : Error) (pool : ℕ)
      → Restored env.target pool (if b then err x else err y, pool)
  if-Restored true x y pool = refl
  if-Restored false x y pool = refl

  create_by_format-Restored :
      (f : Format) (fuel pool ip back : ℕ)
      → Restored env.target pool (create_by_format env f fuel pool ip back)
  unfolding create_by_format parse_dynamic
  create_by_format-Restored table fuel pool ip back =
      parse_after-Restored fuel pool ip back (setup_fde env fuel pool)
        (setup_fde-Restored fuel pool)
  create_by_format-Restored remote_table fuel pool ip back =
      parse_after-Restored fuel pool ip back (setup_fde env fuel pool)
        (setup_fde-Restored fuel pool)
  create_by_format-Restored dynamic fuel pool ip back = refl
  create_by_format-Restored arm_exidx fuel pool ip back =
      if-Restored env.target.arm noinfo inval pool
  create_by_format-Restored ip_offset fuel pool ip back = refl
  create_by_format-Restored remote_table_64 fuel pool ip back = refl

  -- Where `access_mem` always answers and the target's own columns are columns,
  -- `create_state_record_for` on any format, any programs and any instruction pointer: however it
  -- ends, the pool of register states is as full as before, and the record that it returns, if it returns
  -- one, has all its columns.
  pub create_state_record-Restored :
      (fuel pool ip back : ℕ) → Restored env.target pool (create_state_record env fuel pool ip back)
  unfolding create_state_record
  create_state_record-Restored fuel pool ip back =
      create_by_format-Restored env.pi.format fuel pool ip back
