-- ===== src/Dwarf/Cfi/Run.antt =====
-- src/dwarf/Gparser.c: the loop of `run_cfi_program`, and its callers `setup_fde` and `parse_fde`.
use libunwind.Prelude.{ℕ, zero, suc, ◌+◌, ◌-◌, ◌%◌, ltb, leb, ◌&&◌, if◌then◌else◌, [], replicate}
use libunwind.Prelude.Bits.{word_mod}
use libunwind.Result.{Result, ok, err, stop, inval, noinfo, out_of_fuel, ◌>>=◌}
use libunwind.Dwarf.Read.{dwarf_readu8}
use libunwind.Dwarf.Types.{
  Format, dynamic, table, remote_table, arm_exidx, ip_offset, remote_table_64,
}
use libunwind.Dwarf.Cfi.State.{
  undef, same, cfa, Column, RegState, Target, Cfi, Env, set_column, empty_rstate_stack,
}
use libunwind.Dwarf.Cfi.Opcode.{decode_cfa}
use libunwind.Dwarf.Cfi.Step.{exec_cfa}

-- One round: the opcode byte and its instruction.
unfoldable pub step_cfa : Env → Cfi → Result Cfi
step_cfa env s = do
  (op, addr) ← dwarf_readu8 env.space s.addr
  exec_cfa env (decode_cfa op) (record s { addr = addr })

-- The next round, or the end of the loop by an error.
abbrev pub go_on : Cfi → Result Cfi → (Cfi → Cfi × Result (Unit {0})) → Cfi × Result (Unit {0})
go_on s (ok s') rest = rest s'
go_on s (err e) rest = (s, err e)
go_on s (stop x) rest = (s, stop x)

-- The loop returns its variables with its result, as the callers read both. The length of a block
-- may lead `addr` back, so the rounds have no bound.
unfoldable pub run_cfi_program : Env → (fuel end_ip end_addr : ℕ) → Cfi → Cfi × Result (Unit {0})
run_cfi_program env zero end_ip end_addr s = (s, stop out_of_fuel)
run_cfi_program env (suc fuel) end_ip end_addr s =
    if leb s.ip end_ip && ltb s.addr end_addr
    then go_on s (step_cfa env s) (run_cfi_program env fuel end_ip end_addr)
    else (s, ok tt)

-- The part of `dwarf_state_record_t` that is used.
pub record StateRecord : Type 0 where
  pub args_size : ℕ
  pub rs_initial : RegState
  pub rs_current : RegState

abbrev pub blank : Column
blank = record { place = undef; val = 0 }

abbrev pub unchanged : Column
unchanged = record { place = same; val = 0 }

-- The columns before the first instruction.
unfoldable pub default_columns : Target → (ret_addr_column : ℕ) → Result RegState
default_columns t column =
    let rs : RegState = record {
      ret_addr_column = column;
      columns = replicate (t.preserved + 2) unchanged;
    } in
    if t.sp_is_cfa then set_column rs t.sp (record { place = cfa; val = 0 }) else ok rs

abbrev pub zeroed : Target → RegState
zeroed t = record { ret_addr_column = 0; columns = replicate (t.preserved + 2) blank }

-- Both functions return the pool with their result. The remembered states go back first.
abbrev pub drop_stack : Cfi × Result (Unit {0}) → (Cfi → StateRecord) → Result StateRecord × ℕ
drop_stack (s, r) f = (r >>= (λ _. ok (f s)), empty_rstate_stack s.rs_stack s.pool)

abbrev pub cie_start : Env → (pool : ℕ) → RegState → Cfi
cie_start env pool rs = record {
  ip = 0;
  addr = env.dci.cie_instr_start;
  current = rs;
  initial = zeroed env.target;
  args_size = 0;
  rs_stack = [];
  pool = pool;
}

-- The memcpy of `rs_current` into `rs_initial`.
abbrev pub cie_result : Cfi → StateRecord
cie_result s = record { args_size = s.args_size; rs_initial = s.current; rs_current = s.current }

unfoldable pub run_cie : Env → (fuel pool : ℕ) → Result RegState → Result StateRecord × ℕ
run_cie env fuel pool (ok rs) =
    drop_stack
      (run_cfi_program env fuel (word_mod - 1) env.dci.cie_instr_end (cie_start env pool rs))
      cie_result
run_cie env fuel pool (err e) = (err e, pool)
run_cie env fuel pool (stop x) = (stop x, pool)

unfoldable pub setup_fde : Env → (fuel pool : ℕ) → Result StateRecord × ℕ
setup_fde env fuel pool = run_cie env fuel pool (default_columns env.target env.dci.ret_addr_column)

abbrev pub fde_start : Env → (pool : ℕ) → StateRecord → Cfi
fde_start env pool sr = record {
  ip = env.pi.start_ip;
  addr = env.dci.fde_instr_start;
  current = sr.rs_current;
  initial = sr.rs_initial;
  args_size = sr.args_size;
  rs_stack = [];
  pool = pool;
}

abbrev pub fde_result : Cfi → StateRecord
fde_result s = record { args_size = s.args_size; rs_initial = s.initial; rs_current = s.current }

-- `back` is `c->use_prev_instr`, 0 or 1.
unfoldable pub parse_fde : Env → (fuel pool ip back : ℕ) → StateRecord → Result StateRecord × ℕ
parse_fde env fuel pool ip back sr =
    drop_stack
      (run_cfi_program env fuel ((ip + word_mod - back) % word_mod) env.dci.fde_instr_end
        (fde_start env pool sr))
      fde_result

-- `if ((ret = setup_fde (c, sr)) < 0) return ret;`
unfoldable pub parse_after :
    Env → (fuel ip back : ℕ) → Result StateRecord × ℕ → Result StateRecord × ℕ
parse_after env fuel ip back (ok sr, pool) = parse_fde env fuel pool ip back sr
parse_after env fuel ip back (err e, pool) = (err e, pool)
parse_after env fuel ip back (stop x, pool) = (stop x, pool)

-- `parse_dynamic`, which has no implementation.
unfoldable pub parse_dynamic : (pool : ℕ) → Result StateRecord × ℕ
parse_dynamic pool = (err noinfo, pool)

-- Only a build for ARM has a case for its own format.
unfoldable pub create_by_format : Env → Format → (fuel pool ip back : ℕ) → Result StateRecord × ℕ
create_by_format env table fuel pool ip back =
    parse_after env fuel ip back (setup_fde env fuel pool)
create_by_format env remote_table fuel pool ip back =
    parse_after env fuel ip back (setup_fde env fuel pool)
create_by_format env dynamic fuel pool ip back = parse_dynamic pool
create_by_format env arm_exidx fuel pool ip back =
    (if env.target.arm then err noinfo else err inval, pool)
create_by_format env ip_offset fuel pool ip back = (err inval, pool)
create_by_format env remote_table_64 fuel pool ip back = (err inval, pool)

-- `create_state_record_for`.
unfoldable pub create_state_record : Env → (fuel pool ip back : ℕ) → Result StateRecord × ℕ
create_state_record env fuel pool ip back = create_by_format env env.pi.format fuel pool ip back
