-- ===== src/Dwarf/Expr/Opcode.antt =====
-- include/dwarf.h and src/dwarf/Gexpr.c: the opcodes, as the labels of the evaluation loop's
-- `switch` group them.
use libunwind.Prelude.{ℕ, ◌-◌, ◌==◌, ◌&&◌, leb, if◌then◌else◌}
use libunwind.Dwarf.Expr.Operand.{in_block}
use libunwind.Dwarf.Expr.Alu.{
  Unary, Binary, abs, neg, bit_not, conj, div, minus, mod_, mul, disj, plus, shl, shr, shra, xor,
  le, ge, eq, lt, gt, ne,
}

-- `const` pushes its operand, `const_signed w` its operand sign-extended from `w` bits.
pub data Op : Type 0 where
  lit : ℕ → Op
  breg : ℕ → Op
  bregx : Op
  reg : ℕ → Op
  regx : Op
  const : Op
  const_signed : ℕ → Op
  deref : Op
  deref_size : Op
  dup : Op
  drop : Op
  pick_op : Op
  over : Op
  swap : Op
  rot : Op
  unary_op : Unary → Op
  binary_op : Binary → Op
  plus_uconst : Op
  skip : Op
  bra : Op
  nop : Op
  unexpected : Op

-- DW_OP_abs to DW_OP_ne, without the jumps.
unfoldable pub decode_alu : ℕ → Op
decode_alu op =
    if op == 0x19
    then unary_op abs
    else if op == 0x1a
    then binary_op conj
    else if op == 0x1b
    then binary_op div
    else if op == 0x1c
    then binary_op minus
    else if op == 0x1d
    then binary_op mod_
    else if op == 0x1e
    then binary_op mul
    else if op == 0x1f
    then unary_op neg
    else if op == 0x20
    then unary_op bit_not
    else if op == 0x21
    then binary_op disj
    else if op == 0x22
    then binary_op plus
    else if op == 0x23
    then plus_uconst
    else if op == 0x24
    then binary_op shl
    else if op == 0x25
    then binary_op shr
    else if op == 0x26
    then binary_op shra
    else if op == 0x27
    then binary_op xor
    else if op == 0x29
    then binary_op eq
    else if op == 0x2a
    then binary_op ge
    else if op == 0x2b
    then binary_op gt
    else if op == 0x2c
    then binary_op le
    else if op == 0x2d
    then binary_op lt
    else if op == 0x2e
    then binary_op ne
    else unexpected

-- The opcodes outside the blocks of 32 and the arithmetic.
unfoldable pub decode_single : ℕ → Op
unfolding decode_alu
decode_single op =
    if op == 0x03
    then const
    else if op == 0x06
    then deref
    else if op == 0x08
    then const
    else if op == 0x09
    then const_signed 8
    else if op == 0x0a
    then const
    else if op == 0x0b
    then const_signed 16
    else if op == 0x0c
    then const
    else if op == 0x0d
    then const_signed 32
    else if leb 0x0e op && leb op 0x11
    then const
    else if op == 0x12
    then dup
    else if op == 0x13
    then drop
    else if op == 0x14
    then over
    else if op == 0x15
    then pick_op
    else if op == 0x16
    then swap
    else if op == 0x17
    then rot
    else if op == 0x28
    then bra
    else if op == 0x2f
    then skip
    else if op == 0x90
    then regx
    else if op == 0x92
    then bregx
    else if op == 0x94
    then deref_size
    else if op == 0x96
    then nop
    else decode_alu op

unfoldable pub decode : ℕ → Op
unfolding decode_single
decode op =
    if in_block 0x30 op
    then lit (op - 0x30)
    else if in_block 0x50 op
    then reg (op - 0x50)
    else if in_block 0x70 op
    then breg (op - 0x70)
    else decode_single op
