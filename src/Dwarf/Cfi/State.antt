-- ===== src/Dwarf/Cfi/State.antt =====
-- include/dwarf.h and src/dwarf/Gparser.c: the register state that call-frame instructions update,
-- and the stack of remembered states.
use libunwind.Prelude.{
  ℕ, ◌+◌, ◌-◌, Bool, ltb, leb, if◌then◌else◌, List, [], ◌∷◌, length, set, get_elem?, none, some,
}
use libunwind.Result.{Result, ok, err, stop, badreg, inval, nomem, out_of_bounds, ◌>>=◌}
use libunwind.Dwarf.Read.{AddrSpace, Reader}
use libunwind.Dwarf.Leb128.{dwarf_read_uleb128}
use libunwind.Dwarf.Types.{CieInfo, ProcInfo}

-- `dwarf_where_t`, in the order of its values; `undef` is 0.
pub data Where : Type 0 where
  undef same cfarel reg expr val_expr cfa : Where

-- A column of `dwarf_reg_only_state_t`: its entries in the arrays `where` and `val`.
pub record Column : Type 0 where
  pub place : Where
  pub val : ℕ

-- `dwarf_reg_state_t`.
pub record RegState : Type 0 where
  pub ret_addr_column : ℕ
  pub columns : List Column

-- What the build's target decides: DWARF_NUM_PRESERVED_REGS, TDEP_DWARF_SP, whether the stack
-- pointer defaults to the CFA, and the instructions that one target alone has.
pub data WindowSave : Type 0 where
  sparc : WindowSave
  aarch64 : ℕ → WindowSave
  elsewhere : WindowSave

pub record Target : Type 0 where
  pub preserved : ℕ
  pub sp : ℕ
  pub sp_is_cfa : Bool
  pub mips : Bool
  pub arm : Bool
  pub window_save : WindowSave

abbrev pub cfa_reg_column : Target → ℕ
cfa_reg_column t = t.preserved

abbrev pub cfa_off_column : Target → ℕ
cfa_off_column t = t.preserved + 1

-- The variables of a run: `*ip`, `*addr`, the fields of the `dwarf_state_record_t`, `*rs_stack`, and
-- how many states the pool `dwarf_reg_state_pool` can still give.
pub record Cfi : Type 0 where
  pub ip : ℕ
  pub addr : ℕ
  pub current : RegState
  pub initial : RegState
  pub args_size : ℕ
  pub rs_stack : List RegState
  pub pool : ℕ

-- The arguments that a run does not change. `space` is the one that holds the instructions.
pub record Env : Type 0 where
  pub space : AddrSpace
  pub target : Target
  pub dci : CieInfo
  pub pi : ProcInfo

unfoldable pub read_regnum : Env → Reader
read_regnum env addr = do
  (val, addr) ← dwarf_read_uleb128 env.space addr
  if leb env.target.preserved val then err badreg else ok (val, addr)

-- A column behind the end of the arrays is a write out of bounds.
unfoldable pub set_column : RegState → ℕ → Column → Result RegState
set_column rs regnum c =
    if ltb regnum (length rs.columns)
    then ok (record rs { columns = set rs.columns regnum c })
    else stop out_of_bounds

unfoldable pub set_reg : Cfi → (regnum : ℕ) → Where → (val : ℕ) → Result Cfi
unfolding set_column
set_reg s regnum place val = do
  rs ← set_column s.current regnum (record { place = place; val = val })
  ok (record s { current = rs })

-- `rs_current` takes the column of `rs_initial`.
unfoldable pub restore_column : Cfi → ℕ → Result Cfi
unfolding set_column
restore_column s regnum = elim (get_elem? s.initial.columns regnum) [
  | none ↦ stop out_of_bounds
  | some c ↦ do rs ← set_column s.current regnum c; ok (record s { current = rs })
]

-- `push_rstate_stack`, and the copy into the new top.
unfoldable pub remember_state : Cfi → Result Cfi
remember_state s =
    if leb s.pool 0
    then err nomem
    else ok (record s { rs_stack = s.current ∷ s.rs_stack; pool = s.pool - 1 })

-- The copy from the top, and `pop_rstate_stack`; the stack is `s.rs_stack`.
unfoldable pub restore_from : Cfi → List RegState → Result Cfi
restore_from s [] = err inval
restore_from s (rs ∷ rest) = ok (record s { current = rs; rs_stack = rest; pool = s.pool + 1 })

unfoldable pub restore_state : Cfi → Result Cfi
unfolding restore_from
restore_state s = restore_from s s.rs_stack

-- Each popped state goes back to the pool.
unfoldable pub empty_rstate_stack : List RegState → ℕ → ℕ
empty_rstate_stack [] pool = pool
empty_rstate_stack (rs ∷ rest) pool = empty_rstate_stack rest (pool + 1)
