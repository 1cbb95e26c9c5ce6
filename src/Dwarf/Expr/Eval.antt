-- ===== src/Dwarf/Expr/Eval.antt =====
-- src/dwarf/Gexpr.c: `dwarf_eval_expr`, its `switch`, its loop and the function itself.
use libunwind.Prelude.{ℕ, zero, suc, ◌+◌, ◌-◌, ◌%◌, ltb, if◌then◌else◌, List, []}
use libunwind.Prelude.Bits.{word_mod}
use libunwind.Result.{Result, ok, err, stop, inval, out_of_fuel, ◌>>=◌}
use libunwind.Dwarf.Read.{dwarf_readu8}
use libunwind.Dwarf.Leb128.{extend}
use libunwind.Prelude.Bits.{test_bit}
use libunwind.Dwarf.Expr.Operand.{operands, read_operands}
use libunwind.Dwarf.Expr.Stack.{push, pop}
use libunwind.Dwarf.Expr.Opcode.{
  Op, decode, lit, breg, bregx, reg, regx, const, const_signed, deref, deref_size, dup, drop,
  pick_op, over, swap, rot, unary_op, binary_op, plus_uconst, skip, bra, nop, unexpected,
}
use libunwind.Dwarf.Expr.Machine.{
  Context, dwarf_to_unw_regnum, dwarf_to_unw_regnum_int, Machine, Outcome, next, in_register, Value,
  value, register, goto, push_at, exec_breg, exec_deref, exec_deref_size, exec_pick, exec_swap,
  exec_rot, exec_unary, exec_binary, jump, exec_bra,
}

-- if (operand1 & sign bit) operand1 |= -1 << w
abbrev pub sign_from : ℕ → ℕ → ℕ
sign_from w v = if test_bit v (w - 1) then extend v w else v

-- The `switch`, with both operands read and `addr` behind them.
unfoldable pub exec : Context → Op → (operand1 operand2 addr : ℕ) → List ℕ → Result Outcome
unfolding exec_breg exec_deref exec_deref_size exec_pick exec_swap exec_rot exec_unary exec_binary
    exec_bra
exec cx (lit n) a b addr stack = push_at addr n stack
exec cx (breg n) a b addr stack = exec_breg cx (dwarf_to_unw_regnum cx n) a addr stack
exec cx bregx a b addr stack = do
  regnum ← dwarf_to_unw_regnum_int cx a
  exec_breg cx regnum b addr stack
exec cx (reg n) a b addr stack = ok (in_register (dwarf_to_unw_regnum cx n))
exec cx regx a b addr stack = ok (in_register (dwarf_to_unw_regnum cx a))
exec cx const a b addr stack = push_at addr a stack
exec cx (const_signed w) a b addr stack = push_at addr (sign_from w a) stack
exec cx deref a b addr stack = exec_deref cx.space addr stack
exec cx deref_size a b addr stack = exec_deref_size cx.space a addr stack
exec cx dup a b addr stack = exec_pick 0 addr stack
exec cx drop a b addr stack = do (_, s) ← pop stack; goto addr s
exec cx pick_op a b addr stack = exec_pick a addr stack
exec cx over a b addr stack = exec_pick 1 addr stack
exec cx swap a b addr stack = exec_swap addr stack
exec cx rot a b addr stack = exec_rot addr stack
exec cx (unary_op op) a b addr stack = exec_unary cx.space.addr_size op addr stack
exec cx (binary_op op) a b addr stack = exec_binary cx.space.addr_size op addr stack
exec cx plus_uconst a b addr stack = do
  (tmp1, s) ← pop stack
  push_at addr ((tmp1 + a) % word_mod) s
exec cx skip a b addr stack = goto (jump addr a) stack
exec cx bra a b addr stack = exec_bra a addr stack
exec cx nop a b addr stack = goto addr stack
exec cx unexpected a b addr stack = err inval

-- The body of the loop.
unfoldable pub step : Context → Machine → Result Outcome
step cx m = do
  (opcode, addr) ← dwarf_readu8 cx.space m.addr
  (operand1, operand2, addr) ← read_operands cx.space (operands opcode) addr
  exec cx (decode opcode) operand1 operand2 addr m.stack

-- `*valp = pop ()`
abbrev pub finish : List ℕ → Result Value
finish stack = do (v, _) ← pop stack; ok (value v)

-- `while (*addr < end_addr)`. A jump may lead back, so the rounds have no bound.
unfoldable pub eval_loop : Context → (fuel end_addr : ℕ) → Machine → Result Value
eval_loop cx zero end_addr m = stop out_of_fuel
eval_loop cx (suc fuel) end_addr m =
    if ltb m.addr end_addr
    then (do
      o ← step cx m
      elim o [ next m' ↦ eval_loop cx fuel end_addr m' | in_register r ↦ ok (register r) ])
    else finish m.stack

unfoldable pub dwarf_eval_expr : Context → (fuel stack_val addr len : ℕ) → Result Value
unfolding eval_loop
dwarf_eval_expr cx fuel stack_val addr len = do
  stack ← push stack_val []
  eval_loop cx fuel ((addr + len) % word_mod) (record { addr = addr; stack = stack })
