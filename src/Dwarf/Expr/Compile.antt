-- ===== src/Dwarf/Expr/Compile.antt =====
-- Arithmetic expressions, their code as a DWARF expression, and their value.
use libunwind.Prelude.{ℕ, ◌+◌, ◌*◌, ◌%◌, ◌≤◌, ◌<◌, ◌≡◌, refl, List, [], ◌∷◌, ◌++◌, length, arith}
use Prim.Native.Nat.{max}
use libunwind.Prelude.Bits.{word_mod}
use libunwind.Prelude.Int.{signed, to_word}
use libunwind.Result.{Result, ok, ◌>>=◌}
use libunwind.Dwarf.Read.{dwarf_readw}
use libunwind.Dwarf.Leb128.Decode.{IsLeb128, groups}
use libunwind.Dwarf.Leb128.RoundTrip.{uleb128}
use libunwind.Dwarf.Expr.Operand.{Signature, operands, opnd1, in_block}
use libunwind.Dwarf.Expr.Operand
use libunwind.Dwarf.Expr.Alu.{
  Unary, Binary, abs, neg, bit_not, conj, div, minus, mod_, mul, disj, plus, shl, shr, shra, xor,
  le, ge, eq, lt, gt, ne, unary, binary,
}
use libunwind.Dwarf.Expr.Opcode.{decode, lit, breg, unary_op, binary_op}
use libunwind.Dwarf.Expr.Machine.{Context, dwarf_to_unw_regnum}

-- `breg r bs` is register `r` and an offset in signed LEB128.
pub data Expr : Type 0 where
  small : ℕ → Expr
  number : ℕ → Expr
  register : ℕ → List ℕ → Expr
  load : Expr → Expr
  apply_unary : Unary → Expr → Expr
  apply_binary : Binary → Expr → Expr → Expr

abbrev pub unary_code : Unary → ℕ
unary_code abs = 0x19
unary_code neg = 0x1f
unary_code bit_not = 0x20

abbrev pub binary_code : Binary → ℕ
binary_code conj = 0x1a
binary_code div = 0x1b
binary_code minus = 0x1c
binary_code mod_ = 0x1d
binary_code mul = 0x1e
binary_code disj = 0x21
binary_code plus = 0x22
binary_code shl = 0x24
binary_code shr = 0x25
binary_code shra = 0x26
binary_code xor = 0x27
binary_code eq = 0x29
binary_code ge = 0x2a
binary_code gt = 0x2b
binary_code le = 0x2c
binary_code lt = 0x2d
binary_code ne = 0x2e

-- Postfix code.
abbrev pub code : Expr → List ℕ
code (small n) = (0x30 + n) ∷ []
code (number v) = 0x10 ∷ uleb128 9 v
code (register r bs) = (0x70 + r) ∷ bs
code (load e) = code e ++ (0x06 ∷ [])
code (apply_unary op e) = code e ++ (unary_code op ∷ [])
code (apply_binary op l r) = code l ++ (code r ++ (binary_code op ∷ []))

-- The numbers that fit their opcodes.
abbrev pub Fits : Expr → Type 0
Fits (small n) = n < 32
Fits (number v) = v < word_mod
Fits (register r bs) = (r < 32) × IsLeb128 bs × (length bs ≤ 9)
Fits (load e) = Fits e
Fits (apply_unary op e) = Fits e
Fits (apply_binary op l r) = Fits l × Fits r

-- The stack that the code needs, and its opcodes.
abbrev pub depth : Expr → ℕ
depth (small n) = 1
depth (number v) = 1
depth (register r bs) = 1
depth (load e) = depth e
depth (apply_unary op e) = depth e
depth (apply_binary op l r) = max (depth l) (1 + depth r)

abbrev pub opcodes : Expr → ℕ
opcodes (small n) = 1
opcodes (number v) = 1
opcodes (register r bs) = 1
opcodes (load e) = opcodes e + 1
opcodes (apply_unary op e) = opcodes e + 1
opcodes (apply_binary op l r) = opcodes l + (opcodes r + 1)

-- The value, or the way in which there is none.
abbrev pub meaning : Context → Expr → Result ℕ
meaning cx (small n) = ok n
meaning cx (number v) = ok v
meaning cx (register r bs) = do
  base ← cx.get_reg (dwarf_to_unw_regnum cx r)
  ok ((base + to_word (signed (7 * length bs) (groups bs))) % word_mod)
meaning cx (load e) = do place ← meaning cx e; (v, _) ← dwarf_readw cx.space place; ok v
meaning cx (apply_unary op e) = do v ← meaning cx e; ok (unary cx.space.addr_size op v)
meaning cx (apply_binary op l r) = do
  tmp2 ← meaning cx l
  tmp1 ← meaning cx r
  binary cx.space.addr_size op tmp1 tmp2

-- The opcodes that the code uses, as the evaluator reads them.
pub unary_code-decode :
    (op : Unary)
    → (decode (unary_code op) ≡ unary_op op) × (operands (unary_code op) ≡ Signature.none)
unfolding decode operands
unary_code-decode abs = (refl, refl)
unary_code-decode neg = (refl, refl)
unary_code-decode bit_not = (refl, refl)

pub binary_code-decode :
    (op : Binary)
    → (decode (binary_code op) ≡ binary_op op) × (operands (binary_code op) ≡ Signature.none)
unfolding decode operands
binary_code-decode conj = (refl, refl)
binary_code-decode _ = (refl, refl)

pub small-decode :
    (n : ℕ) → n < 32 → (decode (0x30 + n) ≡ lit n) × (operands (0x30 + n) ≡ Signature.none)
unfolding decode operands
small-decode n h = (ground arith, ground arith)

pub register-decode :
    (r : ℕ) → r < 32 → (decode (0x70 + r) ≡ breg r) × (operands (0x70 + r) ≡ opnd1 Operand.sleb128)
unfolding decode operands
register-decode r h = (ground arith, ground arith)
