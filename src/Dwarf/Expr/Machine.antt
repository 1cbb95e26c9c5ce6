-- ===== src/Dwarf/Expr/Machine.antt =====
-- src/dwarf/Gexpr.c: `dwarf_eval_expr`.
use libunwind.Prelude.{
  ℕ, ◌+◌, ◌-◌, ◌*◌, ◌/◌, ◌%◌, ◌^◌, ltb, leb, ◌==◌, ◌&&◌, if◌then◌else◌, List, get_or, length,
}
use libunwind.Prelude.Bits.{word_mod}
use libunwind.Prelude.Int.{signed, to_word}
use libunwind.Result.{Result, ok, err, stop, inval, out_of_bounds, ◌>>=◌}
use libunwind.Dwarf.Read.{
  AddrSpace, dwarf_readu8, dwarf_readu16, dwarf_readu32, dwarf_readu64, dwarf_readw,
}
use libunwind.Dwarf.Expr.Stack.{push, pop, pick}
use libunwind.Dwarf.Expr.Alu.{Unary, Binary, unary, binary}

-- What the evaluation takes from the cursor: its address space, the target's map of register
-- numbers, and `unw_get_reg`.
pub record Context : Type 0 where
  pub space : AddrSpace
  pub regnum_map : List ℕ
  pub get_reg : ℕ → Result ℕ

-- The macro of include/dwarf_i.h, at an unsigned register number.
abbrev pub dwarf_to_unw_regnum : Context → ℕ → ℕ
dwarf_to_unw_regnum cx reg =
    if ltb reg (length cx.regnum_map) then get_or cx.regnum_map reg 0 else 0

-- The macro at `(int) reg`: a negative number passes its test and indexes in front of the map.
abbrev pub dwarf_to_unw_regnum_int : Context → ℕ → Result ℕ
dwarf_to_unw_regnum_int cx reg =
    if leb (2 ^ 31) (reg % 2 ^ 32)
    then stop out_of_bounds
    else ok (dwarf_to_unw_regnum cx (reg % 2 ^ 32))

-- The variables of the loop. The stack has its top first.
pub record Machine : Type 0 where
  pub addr : ℕ
  pub stack : List ℕ

pub data Outcome : Type 0 where
  next : Machine → Outcome
  in_register : ℕ → Outcome

-- What the function hands back: `*valp`, and whether `*is_register` is set.
pub data Value : Type 0 where
  value : ℕ → Value
  register : ℕ → Value

-- Push and go on behind the operands.
abbrev pub goto : ℕ → List ℕ → Result Outcome
goto addr stack = ok (next (record { addr = addr; stack = stack }))

abbrev pub push_at : ℕ → ℕ → List ℕ → Result Outcome
push_at addr x stack = do s ← push x stack; goto addr s

unfoldable pub exec_breg : Context → (regnum offset addr : ℕ) → List ℕ → Result Outcome
exec_breg cx regnum offset addr stack = do
  tmp1 ← cx.get_reg regnum
  push_at addr ((tmp1 + offset) % word_mod) stack

-- `tmp2 &= (~ (unw_word_t) 0) << n`
abbrev pub keep_from : ℕ → ℕ → ℕ
keep_from n v = v / 2 ^ n * 2 ^ n

-- The inner `switch` of DW_OP_deref_size.
unfoldable pub read_size : AddrSpace → (size addr : ℕ) → Result ℕ
read_size space size addr =
    if size == 1
    then (do (v, _) ← dwarf_readu8 space addr; ok v)
    else if size == 2
    then (do (v, _) ← dwarf_readu16 space addr; ok v)
    else if size == 3
    then (do
      (v, _) ← dwarf_readu32 space addr
      ok (if space.big_endian then v / 2 ^ 8 else v % 2 ^ 24))
    else if size == 4
    then (do (v, _) ← dwarf_readu32 space addr; ok v)
    else if leb 5 size && leb size 7
    then (do
      (v, _) ← dwarf_readu64 space addr
      ok (if space.big_endian then v / 2 ^ (64 - 8 * size) else keep_from (8 * size) v))
    else if size == 8
    then (do (v, _) ← dwarf_readu64 space addr; ok v)
    else err inval

unfoldable pub exec_deref : AddrSpace → (addr : ℕ) → List ℕ → Result Outcome
exec_deref space addr stack = do
  (tmp1, s) ← pop stack
  (tmp2, _) ← dwarf_readw space tmp1
  push_at addr tmp2 s

unfoldable pub exec_deref_size : AddrSpace → (size addr : ℕ) → List ℕ → Result Outcome
unfolding read_size
exec_deref_size space size addr stack = do
  (tmp1, s) ← pop stack
  tmp2 ← read_size space size tmp1
  push_at addr tmp2 s

unfoldable pub exec_pick : (n addr : ℕ) → List ℕ → Result Outcome
exec_pick n addr stack = do x ← pick n stack; push_at addr x stack

unfoldable pub exec_swap : (addr : ℕ) → List ℕ → Result Outcome
exec_swap addr stack = do
  (tmp1, s) ← pop stack
  (tmp2, s) ← pop s
  s ← push tmp1 s
  push_at addr tmp2 s

unfoldable pub exec_rot : (addr : ℕ) → List ℕ → Result Outcome
exec_rot addr stack = do
  (tmp1, s) ← pop stack
  (tmp2, s) ← pop s
  (tmp3, s) ← pop s
  s ← push tmp1 s
  s ← push tmp3 s
  push_at addr tmp2 s

unfoldable pub exec_unary : ℕ → Unary → (addr : ℕ) → List ℕ → Result Outcome
exec_unary size op addr stack = do (tmp1, s) ← pop stack; push_at addr (unary size op tmp1) s

unfoldable pub exec_binary : ℕ → Binary → (addr : ℕ) → List ℕ → Result Outcome
exec_binary size op addr stack = do
  (tmp1, s) ← pop stack
  (tmp2, s) ← pop s
  r ← binary size op tmp1 tmp2
  push_at addr r s

-- `*addr += (int16_t) operand1`
abbrev pub jump : ℕ → ℕ → ℕ
jump addr offset = (addr + to_word (signed 16 offset)) % word_mod

unfoldable pub exec_bra : (offset addr : ℕ) → List ℕ → Result Outcome
exec_bra offset addr stack = do
  (tmp1, s) ← pop stack
  goto (if tmp1 == 0 then addr else jump addr offset) s
