-- ===== src/Dwarf/Frame.antt =====
-- src/dwarf/Gparser.c, apply_reg_state: the caller's frame from the state of the columns. The locations
-- are those of include/tdep-x86_64/libunwind_i.h as built for remote unwinding. An error gives no frame;
-- what the cursor holds behind one is not modelled.
pub mod Rules
pub mod Applied
pub mod Plain
pub mod Mapped
use libunwind.Prelude.{
  ℕ, zero, suc, ◌+◌, ◌%◌, Bool, true, false, ltb, leb, ◌==◌, ◌&&◌, not, if◌then◌else◌, List, length,
  set, get_elem?, Option, none, some,
}
use libunwind.Prelude.Bits.{word_mod}
use libunwind.Result.{Result, ok, err, stop, badreg, badframe, aborted, out_of_bounds, ◌>>=◌}
use libunwind.Dwarf.Leb128.{dwarf_read_uleb128}
use libunwind.Dwarf.Expr.Machine.{
  Context, dwarf_to_unw_regnum, dwarf_to_unw_regnum_int, Value, value, register,
}
use libunwind.Dwarf.Expr.Eval.{dwarf_eval_expr}
use libunwind.Dwarf.Cfi.State.{
  Where, undef, same, cfarel, reg, expr, val_expr, cfa, Column, RegState, Target, cfa_reg_column,
  cfa_off_column,
}

-- `dwarf_loc_t`; `type` is DWARF_LOC_TYPE_MEM, _REG or _VAL. The null location is address 0.
pub data LocType : Type 0 where
  mem_type reg_type val_type : LocType

pub record Loc : Type 0 where
  pub val : ℕ
  pub type : LocType

abbrev pub null_loc : Loc
null_loc = record { val = 0; type = mem_type }

abbrev pub is_null_loc : Loc → Bool
is_null_loc l = elim l.type [ mem_type ↦ l.val == 0 | reg_type ↦ false | val_type ↦ false ]

abbrev pub is_reg_loc : Loc → Bool
is_reg_loc l = elim l.type [ mem_type ↦ false | reg_type ↦ true | val_type ↦ false ]

-- The parts of `struct dwarf_cursor`: `loc` is the array of DWARF_NUM_PRESERVED_REGS locations.
pub record Frame : Type 0 where
  pub ip : ℕ
  pub cfa : ℕ
  pub loc : List Loc

-- What the cursor's address space offers: an expression's context (memory and `unw_get_reg`),
-- `access_reg`, the target's numbers, and how many rounds an expression is given.
pub record FrameEnv : Type 0 where
  pub context : Context
  pub access_reg : ℕ → Result ℕ
  pub target : Target
  pub rounds : ℕ

unfoldable pub dwarf_get : FrameEnv → Loc → Result ℕ
dwarf_get env l = if is_null_loc l then err badreg else elim l.type [
  | reg_type ↦ env.access_reg l.val
  | mem_type ↦ env.context.space.access_mem l.val
  | val_type ↦ ok l.val
]

abbrev pub loc_of : Context → Value → Loc
loc_of cx (register r) = record { val = dwarf_to_unw_regnum cx r; type = reg_type }
loc_of cx (value v) = record { val = v; type = mem_type }

unfoldable pub eval_location_expr : FrameEnv → (stack_val addr : ℕ) → Result Loc
eval_location_expr env stack_val addr = do
  (len, addr) ← dwarf_read_uleb128 env.context.space addr
  v ← dwarf_eval_expr env.context env.rounds stack_val addr len
  ok (loc_of env.context v)

-- An array's element, and a write to one.
abbrev pub at_index {ℓ} : {A : Type ℓ} → List A → ℕ → Result A
at_index xs i = elim (get_elem? xs i) [ none ↦ stop out_of_bounds | some a ↦ ok a ]

abbrev pub write_loc : List Loc → ℕ → Loc → Result (List Loc)
write_loc locs i l = if ltb i (length locs) then ok (set locs i l) else stop out_of_bounds

-- The special case is that of a stack pointer that is the CFA and was not saved.
unfoldable pub cfa_register : FrameEnv → Frame → (regnum : ℕ) → Result ℕ
cfa_register env c regnum =
    let other = (do r ← dwarf_to_unw_regnum_int env.context regnum; env.context.get_reg r) in
    if (regnum == env.target.sp) && ltb env.target.sp (env.target.preserved + 2)
    then (do l ← at_index c.loc env.target.sp; if is_null_loc l then ok c.cfa else other)
    else other

unfoldable pub compute_cfa : FrameEnv → Frame → RegState → Result ℕ
compute_cfa env c rs = do
  base ← at_index rs.columns (cfa_reg_column env.target)
  off ← at_index rs.columns (cfa_off_column env.target)
  elim base.place [
    | reg ↦ do r ← cfa_register env c base.val; ok ((r + off.val) % word_mod)
    | expr ↦ do
      l ← eval_location_expr env 0 base.val
      if is_reg_loc l then err badframe else ok l.val
    | undef ↦ stop aborted
    | same ↦ stop aborted
    | cfarel ↦ stop aborted
    | val_expr ↦ stop aborted
    | cfa ↦ stop aborted
  ]

-- The `switch` at column `i`.
unfoldable pub apply_column : FrameEnv → (cfa_val i : ℕ) → Column → List Loc → Result (List Loc)
apply_column env cfa_val i c new_loc = elim c.place [
  | undef ↦ write_loc new_loc i null_loc
  | same ↦ ok new_loc
  | cfa ↦ write_loc new_loc i (record { val = cfa_val; type = val_type })
  | cfarel ↦ write_loc new_loc i (record { val = (cfa_val + c.val) % word_mod; type = mem_type })
  | reg ↦ do l ← at_index new_loc c.val; write_loc new_loc i l
  | expr ↦ do l ← eval_location_expr env cfa_val c.val; write_loc new_loc i l
  | val_expr ↦ do
    l ← eval_location_expr env cfa_val c.val
    write_loc new_loc i (record { val = l.val; type = val_type })
]

-- The loop, for `n` columns from `i` on.
unfoldable pub apply_columns :
    FrameEnv → (cfa_val : ℕ) → RegState → (n i : ℕ) → List Loc → Result (List Loc)
apply_columns env cfa_val rs zero i new_loc = ok new_loc
apply_columns env cfa_val rs (suc n) i new_loc = do
  c ← at_index rs.columns i
  new_loc ← apply_column env cfa_val i c new_loc
  apply_columns env cfa_val rs n (suc i) new_loc

unfoldable pub return_ip : FrameEnv → Loc → Result ℕ
return_ip env l = if is_null_loc l then ok 0 else dwarf_get env l

-- The caller's frame, and whether there is one.
unfoldable pub apply_reg_state : FrameEnv → Frame → RegState → Result (Frame × Bool)
apply_reg_state env c rs = if leb env.target.preserved rs.ret_addr_column then err badframe else (do
  cfa_val ← compute_cfa env c rs
  locs ← apply_columns env cfa_val rs env.target.preserved 0 c.loc
  l ← at_index locs rs.ret_addr_column
  ip ← return_ip env l
  if (ip == c.ip) && (cfa_val == c.cfa)
      then err badframe
      else ok (record { ip = ip; cfa = cfa_val; loc = locs }, not (ip == 0)))
