-- ===== src/Dwarf/Expr/Looping.antt =====
-- A jump back makes the evaluation loop without an end.
use libunwind.Prelude.{ℕ, zero, suc, ◌+◌, ◌%◌, ◌<◌, ◌≡◌, refl, arith, lt→ltb, false, List, [], ◌∷◌}
use libunwind.Prelude.Bits.{word_mod}
use libunwind.Result.{ok, stop, out_of_fuel}
use libunwind.Dwarf.Read.Bytes.{after, Holds, readu16-number}
use libunwind.Dwarf.Expr.Operand.{operands, read_operands, read_operand, read_typed}
use libunwind.Dwarf.Expr.Opcode.{decode}
use libunwind.Dwarf.Expr.Machine.{Context, next}
use libunwind.Dwarf.Expr.Eval.{exec, step, eval_loop, dwarf_eval_expr}

module _ (cx : Context) (addr : ℕ) (in_range : addr + 3 < word_mod) where
  -- DW_OP_skip by -3 leads to itself.
  step-skip_self :
      (stack : List ℕ)
      → cx.space.big_endian ≡ false
      → Holds cx.space addr (0x2f ∷ 0xfd ∷ 0xff ∷ [])
      → step cx (record { addr = addr; stack = stack })
        ≡ ok (next (record { addr = addr; stack = stack }))
  unfolding step exec operands decode read_operands read_operand read_typed
  step-skip_self stack little (_, e, rest) =
      rw e (ground (arith, little, readu16-number cx.space (after addr 1) 0xfd 0xff rest))

  eval_loop-skip_self :
      (fuel end_addr : ℕ) (stack : List ℕ)
      → addr < end_addr
      → cx.space.big_endian ≡ false
      → Holds cx.space addr (0x2f ∷ 0xfd ∷ 0xff ∷ [])
      → eval_loop cx fuel end_addr (record { addr = addr; stack = stack }) ≡ stop out_of_fuel
  unfolding eval_loop
  eval_loop-skip_self zero end_addr stack h little holds = refl
  eval_loop-skip_self (suc fuel) end_addr stack h little holds =
      rw (lt→ltb addr end_addr h, step-skip_self stack little holds)
        (eval_loop-skip_self fuel end_addr stack h little holds)

  -- On a little-endian space the three bytes 2f fd ff, DW_OP_skip by -3, at an address with three
  -- more bytes behind it, make `dwarf_eval_expr` loop for ever: no number of rounds is enough.
  pub eval_expr-skip_self :
      (fuel stack_val : ℕ)
      → cx.space.big_endian ≡ false
      → Holds cx.space addr (0x2f ∷ 0xfd ∷ 0xff ∷ [])
      → dwarf_eval_expr cx fuel stack_val addr 3 ≡ stop out_of_fuel
  unfolding dwarf_eval_expr
  eval_expr-skip_self fuel stack_val little holds =
      let wrap : (addr + 3) % word_mod ≡ addr + 3 = omega arith in
      rw wrap (eval_loop-skip_self fuel (addr + 3) (stack_val ∷ []) (omega arith) little holds)
