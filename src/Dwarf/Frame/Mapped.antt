-- ===== src/Dwarf/Frame/Mapped.antt =====
-- A location expression that names a register.
use libunwind.Prelude.{ℕ, suc, ◌+◌, ◌-◌, ◌%◌, ◌<◌, ◌≡◌, arith, true, false, ltb, [], ◌∷◌}
use libunwind.Prelude.Bits.{word_mod}
use libunwind.Result.{ok}
use libunwind.Dwarf.Read.Bytes.{after, Holds}
use libunwind.Dwarf.Leb128.{dwarf_read_uleb128}
use libunwind.Dwarf.Leb128.Decode.{read_uleb128-groups}
use libunwind.Dwarf.Expr.Machine.{dwarf_to_unw_regnum}
use libunwind.Dwarf.Expr.Operand.{Signature, in_block, operands, read_operands}
use libunwind.Dwarf.Expr.Opcode.{reg, decode}
use libunwind.Dwarf.Expr.Eval.{exec, step, eval_loop, dwarf_eval_expr}
use libunwind.Dwarf.Frame.{reg_type, FrameEnv, eval_location_expr}

-- The operations DW_OP_reg0 to DW_OP_reg31 name a register and have no operand.
decode-reg : (n : ℕ) → n < 32 → decode (0x50 + n) ≡ reg n
unfolding decode
decode-reg n h =
    let other : in_block 0x30 (0x50 + n) ≡ false = ground arith in
    let inside : in_block 0x50 (0x50 + n) ≡ true = ground arith in
    let back : 0x50 + n - 0x50 ≡ n = omega arith in rw (other, inside, back)

operands-reg : (n : ℕ) → n < 32 → operands (0x50 + n) ≡ Signature.none
unfolding operands
operands-reg n h = ground arith

-- Where memory holds the expression of the one operation DW_OP_reg<n>, the location is the register that
-- the map of register numbers gives when it is applied twice: once in the evaluator, and once to its
-- result.
pub eval_location_expr-twice :
    (env : FrameEnv) (stack_val addr n fuel : ℕ)
    → env.rounds ≡ suc fuel
    → n < 32
    → addr + 2 < word_mod
    → Holds env.context.space addr (1 ∷ (0x50 + n) ∷ [])
    → eval_location_expr env stack_val addr
      ≡ ok (record {
        val = dwarf_to_unw_regnum env.context (dwarf_to_unw_regnum env.context n);
        type = reg_type;
      })
unfolding eval_location_expr dwarf_eval_expr eval_loop step exec read_operands
eval_location_expr-twice env stack_val addr n fuel some small low (b, read, (b', read', _)) =
    let length_read : dwarf_read_uleb128 env.context.space addr ≡ ok (1, after addr 1) =
      read_uleb128-groups env.context.space addr (1 ∷ []) (omega arith) (omega arith)
        (b, read, tt) in
    let more : ltb (after addr 1) ((after addr 1 + 1) % word_mod) ≡ true = ground arith in
    rw (length_read, some, more, read', operands-reg n small, decode-reg n small)
