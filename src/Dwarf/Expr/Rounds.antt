-- ===== src/Dwarf/Expr/Rounds.antt =====
-- One round of the evaluator, for each kind of opcode that an expression's code has.
use libunwind.Prelude.{ℕ, suc, ◌+◌, ◌*◌, ◌%◌, ◌<◌, ◌≡◌, refl, ◌∙◌, List, [], ◌∷◌, length, arith}
use libunwind.Prelude.Bits.{word_mod}
use libunwind.Prelude.Int.{signed, to_word}
use libunwind.Result.{ok}
use libunwind.Dwarf.Read.{dwarf_readw}
use libunwind.Dwarf.Read.Bytes.{after, after-eq, Holds}
use libunwind.Dwarf.Leb128.Decode.{groups}
use libunwind.Dwarf.Leb128.Signed.{read_sleb128-signed}
use libunwind.Dwarf.Leb128.RoundTrip.{read_uleb128-uleb128}
use libunwind.Dwarf.Expr.Operand.{Signature, operands, read_operands, read_operand}
use libunwind.Dwarf.Expr.Alu.{Unary, Binary, unary, binary}
use libunwind.Dwarf.Expr.Opcode.{Op, decode, lit, deref, unary_op, binary_op}
use libunwind.Dwarf.Expr.Machine.{Context, Machine, next, dwarf_to_unw_regnum}
use libunwind.Dwarf.Expr.Eval.{exec, step, finish, eval_loop}
use libunwind.Dwarf.Expr.Compile.{
  Expr, small, number, register, load, apply_unary, apply_binary, code, Fits, depth, unary_code,
  binary_code, unary_code-decode, binary_code-decode, small-decode, register-decode,
}

abbrev pub at : ℕ → List ℕ → Machine
at addr stack = record { addr = addr; stack = stack }

pub after-in_range : (addr n : ℕ) → addr + n < word_mod → after addr n ≡ addr + n
after-in_range addr n h = omega (arith, after-eq addr n)

pub depth_pos : (e : Expr) → 0 < depth e
depth_pos (small n) = omega arith
depth_pos (number v) = omega arith
depth_pos (register r bs) = omega arith
depth_pos (load e) = depth_pos e
depth_pos (apply_unary op e) = depth_pos e
depth_pos (apply_binary op l r) = omega arith

module _ (cx : Context) where
  -- A round on an opcode without operands.
  pub step-plain :
      (addr c : ℕ) (stack : List ℕ) (op : Op)
      → Holds cx.space addr (c ∷ [])
      → decode c ≡ op
      → operands c ≡ Signature.none
      → step cx (at addr stack) ≡ exec cx op 0 0 (after addr 1) stack
  unfolding step read_operands
  step-plain addr c stack op (_, e, _) d o = rw (e, o, d)

  pub step-small :
      (addr n : ℕ) (stack : List ℕ)
      → n < 32
      → length stack < 64
      → Holds cx.space addr (code (small n))
      → step cx (at addr stack) ≡ ok (next (at (after addr 1) (n ∷ stack)))
  step-small addr n stack h fits holds =
      step-plain addr (0x30 + n) stack (lit n) holds (small-decode n h).0 (small-decode n h).1
      ∙ unfold exec in ground arith

  pub step-number :
      (addr v : ℕ) (stack : List ℕ)
      → v < word_mod
      → length stack < 64
      → Holds cx.space addr (code (number v))
      → step cx (at addr stack) ≡ ok (next (at (after addr (length (code (number v)))) (v ∷ stack)))
  unfolding step read_operands read_operand exec operands decode
  step-number addr v stack h fits (_, e, rest) =
      rw e (ground (arith, read_uleb128-uleb128 cx.space (after addr 1) v h rest))

  pub step-register :
      (addr r base : ℕ) (bs stack : List ℕ)
      → Fits (register r bs)
      → length stack < 64
      → cx.get_reg (dwarf_to_unw_regnum cx r) ≡ ok base
      → Holds cx.space addr (code (register r bs))
      → step cx (at addr stack)
        ≡ ok (
            next (
              at
                (after addr (suc (length bs)))
                ((base + to_word (signed (7 * length bs) (groups bs))) % word_mod ∷ stack)))
  unfolding step read_operands read_operand exec
  step-register addr r base bs stack (hr, wf, len) fits hb (_, e, rest) =
      rw (e, (register-decode r hr).1, (register-decode r hr).0)
        (ground (arith, read_sleb128-signed cx.space (after addr 1) bs wf len rest, hb))

  pub step-load :
      (addr place v off : ℕ) (stack : List ℕ)
      → length stack < 64
      → dwarf_readw cx.space place ≡ ok (v, off)
      → Holds cx.space addr (0x06 ∷ [])
      → step cx (at addr (place ∷ stack)) ≡ ok (next (at (after addr 1) (v ∷ stack)))
  step-load addr place v off stack fits hv holds =
      step-plain addr 0x06 (place ∷ stack) deref holds (unfold decode in refl)
        (unfold operands in refl)
      ∙ unfold exec in ground arith

  pub step-unary :
      (op : Unary) (addr v : ℕ) (stack : List ℕ)
      → length stack < 64
      → Holds cx.space addr (unary_code op ∷ [])
      → step cx (at addr (v ∷ stack))
        ≡ ok (next (at (after addr 1) (unary cx.space.addr_size op v ∷ stack)))
  step-unary op addr v stack fits holds =
      step-plain addr (unary_code op) (v ∷ stack) (unary_op op) holds (unary_code-decode op).0
        (unary_code-decode op).1
      ∙ unfold exec in ground arith

  pub step-binary :
      (op : Binary) (addr tmp1 tmp2 v : ℕ) (stack : List ℕ)
      → length stack < 64
      → binary cx.space.addr_size op tmp1 tmp2 ≡ ok v
      → Holds cx.space addr (binary_code op ∷ [])
      → step cx (at addr (tmp1 ∷ tmp2 ∷ stack)) ≡ ok (next (at (after addr 1) (v ∷ stack)))
  step-binary op addr tmp1 tmp2 v stack fits hv holds =
      step-plain addr (binary_code op) (tmp1 ∷ tmp2 ∷ stack) (binary_op op) holds
        (binary_code-decode op).0 (binary_code-decode op).1
      ∙ unfold exec in ground arith

  -- At the end address the loop stops.
  pub eval_loop-stop :
      (end_addr : ℕ) (stack : List ℕ) → eval_loop cx 1 end_addr (at end_addr stack) ≡ finish stack
  unfolding eval_loop
  eval_loop-stop end_addr stack = ground arith
