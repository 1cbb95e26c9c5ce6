-- ===== src/Dwarf/Expr/Operand.antt =====
-- src/dwarf/Gexpr.c: the operands of an opcode, the table `operands` and `read_operand`.
use libunwind.Prelude.{ℕ, ◌+◌, Bool, ltb, leb, ◌==◌, ◌&&◌, ◌||◌, if◌then◌else◌}
use libunwind.Result.{Result, ok, err, stop, inval, aborted, ◌>>=◌}
use libunwind.Dwarf.Read.{
  AddrSpace, Reader, dwarf_readu8, dwarf_readu16, dwarf_readu32, dwarf_readu64,
}
use libunwind.Dwarf.Leb128.{dwarf_read_uleb128, dwarf_read_sleb128}

pub data OperandType : Type 0 where
  val8 val16 val32 val64 uleb128 sleb128 offset address : OperandType

-- NUM_OPERANDS, OPND1_TYPE and OPND2_TYPE.
pub data Signature : Type 0 where
  none : Signature
  opnd1 : OperandType → Signature
  opnd2 : OperandType → OperandType → Signature

-- An opcode among the 32 from `first` on.
abbrev pub in_block : ℕ → ℕ → Bool
in_block first op = leb first op && ltb op (first + 32)

unfoldable pub operands : ℕ → Signature
operands op =
    if op == 0x03
    then opnd1 address
    else if op == 0x08 || op == 0x09
    then opnd1 val8
    else if op == 0x0a || op == 0x0b
    then opnd1 val16
    else if op == 0x0c || op == 0x0d
    then opnd1 val32
    else if op == 0x0e || op == 0x0f
    then opnd1 val64
    else if op == 0x10
    then opnd1 uleb128
    else if op == 0x11
    then opnd1 sleb128
    else if op == 0x15
    then opnd1 val8
    else if op == 0x23
    then opnd1 uleb128
    else if op == 0x2f || op == 0x28
    then opnd1 val16
    else if in_block 0x70 op
    then opnd1 sleb128
    else if op == 0x90
    then opnd1 uleb128
    else if op == 0x91
    then opnd1 sleb128
    else if op == 0x92
    then opnd2 uleb128 sleb128
    else if op == 0x93
    then opnd1 uleb128
    else if op == 0x94 || op == 0x95
    then opnd1 val8
    else if op == 0x98
    then opnd1 val16
    else if op == 0x99
    then opnd1 val32
    else if op == 0x9a
    then opnd1 offset
    else none

-- ADDR stands for the type of the address space's width.
unfoldable pub address_type : ℕ → Result OperandType
address_type size =
    if size == 1
    then ok val8
    else if size == 2
    then ok val16
    else if size == 4
    then ok val32
    else if size == 8
    then ok val64
    else stop aborted

unfoldable pub read_typed : AddrSpace → OperandType → Reader
read_typed space val8 addr = dwarf_readu8 space addr
read_typed space val16 addr = dwarf_readu16 space addr
read_typed space val32 addr = dwarf_readu32 space addr
read_typed space val64 addr = dwarf_readu64 space addr
read_typed space uleb128 addr = dwarf_read_uleb128 space addr
read_typed space sleb128 addr = dwarf_read_sleb128 space addr
read_typed space offset addr = err inval
read_typed space address addr = err inval

abbrev pub is_address : OperandType → Bool
is_address address = Bool.true
is_address _ = Bool.false

unfoldable pub read_operand : AddrSpace → OperandType → Reader
unfolding address_type read_typed
read_operand space type addr =
    if is_address type
    then (do width ← address_type space.addr_size; read_typed space width addr)
    else read_typed space type addr

-- Both operands, as the evaluation loop reads them; a missing one is 0.
unfoldable pub read_operands : AddrSpace → Signature → ℕ → Result (ℕ × ℕ × ℕ)
read_operands space none addr = ok (0, 0, addr)
read_operands space (opnd1 t) addr = do (v, addr) ← read_operand space t addr; ok (v, 0, addr)
read_operands space (opnd2 t u) addr = do
  (v, addr) ← read_operand space t addr
  (w, addr) ← read_operand space u addr
  ok (v, w, addr)
