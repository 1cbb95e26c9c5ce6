-- ===== src/Dwarf/Expr/Correct.antt =====
-- The evaluator computes what an expression means.
use libunwind.Prelude.{
  ℕ, suc, ◌+◌, ◌%◌, ◌≤◌, ◌<◌, ◌≡◌, ap, ◌∙◌, List, [], ◌∷◌, ◌++◌, length, arith, length-append,
}
use mathlib.Core.Path.{subst}
use native.Mathlib.Nat.{le_refl, mod-eq_of_lt}
use libunwind.Prelude.Bits.{word_mod}
use libunwind.Result.{ok, >>=-eq-ok}
use libunwind.Dwarf.Read.{dwarf_readw}
use libunwind.Dwarf.Read.Bytes.{after, Holds, Holds-front, Holds-back}
use libunwind.Dwarf.Expr.Machine.{Context, next, value, dwarf_to_unw_regnum}
use libunwind.Dwarf.Expr.Eval.{step, dwarf_eval_expr}
use libunwind.Dwarf.Expr.Runs.{Runs, Runs-one, Runs-append, eval_loop-Runs}
use libunwind.Dwarf.Expr.Compile.{
  Expr, small, number, register, load, apply_unary, apply_binary, code, Fits, depth, opcodes,
  meaning, unary_code, binary_code,
}
use libunwind.Dwarf.Expr.Rounds.{
  at, after-in_range, depth_pos, step-small, step-number, step-register, step-load, step-unary,
  step-binary, eval_loop-stop,
}

module _ (cx : Context) where
  module _ (end_addr : ℕ) (in_range : end_addr < word_mod) where
    -- Split the code, and the memory that holds it, behind its first part.
    part_two :
        (addr : ℕ) (xs ys : List ℕ)
        → addr + length (xs ++ ys) ≤ end_addr
        → Holds cx.space addr (xs ++ ys)
        → Holds cx.space (addr + length xs) ys × (addr + length xs + length ys ≤ end_addr)
    part_two addr xs ys h holds =
        let len : length (xs ++ ys) ≡ length xs + length ys = length-append xs ys in
        let place : after addr (length xs) ≡ addr + length xs =
          after-in_range addr (length xs) (omega (arith, len)) in
        (
          subst (λ a. Holds cx.space a ys) place (Holds-back cx.space addr xs ys holds),
          omega (arith, len),
        )

    one_round :
        (addr n : ℕ) (s t : List ℕ)
        → 0 < n
        → addr + n ≤ end_addr
        → step cx (at addr s) ≡ ok (next (at (after addr n) t))
        → Runs cx end_addr 1 (at addr s) (at (addr + n) t)
    one_round addr n s t pos h e =
        Runs-one cx end_addr (at addr s) (at (addr + n) t) (omega arith)
          (e ∙ ap (λ (a : ℕ). ok (next (at a t))) (after-in_range addr n (omega arith)))

    glue :
        (n k addr : ℕ) (xs ys s t u : List ℕ)
        → Runs cx end_addr n (at addr s) (at (addr + length xs) t)
        → Runs cx end_addr k (at (addr + length xs) t) (at (addr + length xs + length ys) u)
        → Runs cx end_addr (n + k) (at addr s) (at (addr + length (xs ++ ys)) u)
    glue n k addr xs ys s t u p q =
        let place : addr + length xs + length ys ≡ addr + length (xs ++ ys) =
          omega (arith, length-append xs ys) in
        subst (λ a. Runs cx end_addr (n + k) (at addr s) (at a u)) place
          (Runs-append cx end_addr n k (at addr s) (at (addr + length xs) t)
            (at (addr + length xs + length ys) u) p q)

    -- The code of an expression that has a value runs to its end, and leaves the value on the
    -- stack, above what was there.
    compile-Runs :
        (e : Expr) (addr v : ℕ) (stack : List ℕ)
        → Fits e
        → meaning cx e ≡ ok v
        → length stack + depth e ≤ 64
        → addr + length (code e) ≤ end_addr
        → Holds cx.space addr (code e)
        → Runs cx end_addr (opcodes e) (at addr stack) (at (addr + length (code e)) (v ∷ stack))
    compile-Runs (small n) addr v stack fits hv room h holds =
        one_round addr 1 stack (v ∷ stack) (omega arith) h
          (step-small cx addr n stack fits (omega arith) holds ∙ ground arith)
    compile-Runs (number n) addr v stack fits hv room h holds =
        one_round addr (length (code (number n))) stack (v ∷ stack) (omega arith) h
          (step-number cx addr n stack fits (omega arith) holds ∙ ground arith)
    compile-Runs (register r bs) addr v stack fits hv room h holds =
        let (base, hb, hs) = >>=-eq-ok (cx.get_reg (dwarf_to_unw_regnum cx r)) _ hv in
        one_round addr (suc (length bs)) stack (v ∷ stack) (omega arith) h
          (step-register cx addr r base bs stack fits (omega arith) hb holds ∙ ground arith)
    compile-Runs (load e) addr v stack fits hv room h holds =
        let (place, hp, hs) = >>=-eq-ok (meaning cx e) _ hv in
        let (word, hw, hr) = >>=-eq-ok (dwarf_readw cx.space place) _ hs in
        let (holds', h') = part_two addr (code e) (0x06 ∷ []) h holds in
        let a : ℕ = addr + length (code e) in
        glue (opcodes e) 1 addr (code e) (0x06 ∷ []) stack (place ∷ stack) (v ∷ stack)
          (compile-Runs e addr place stack fits hp room (omega arith)
            (Holds-front cx.space addr (code e) _ holds))
          (one_round a 1 (place ∷ stack) (v ∷ stack) (omega arith) h' (
            step-load cx a place word.0 word.1 stack (omega (arith, depth_pos e)) hw holds'
            ∙ ground arith))
    compile-Runs (apply_unary op e) addr v stack fits hv room h holds =
        let (w, hw, hs) = >>=-eq-ok (meaning cx e) _ hv in
        let (holds', h') = part_two addr (code e) (unary_code op ∷ []) h holds in
        let a : ℕ = addr + length (code e) in
        glue (opcodes e) 1 addr (code e) (unary_code op ∷ []) stack (w ∷ stack) (v ∷ stack)
          (compile-Runs e addr w stack fits hw room (omega arith)
            (Holds-front cx.space addr (code e) _ holds))
          (one_round a 1 (w ∷ stack) (v ∷ stack) (omega arith) h'
            (step-unary cx op a w stack (omega (arith, depth_pos e)) holds' ∙ ground arith))
    compile-Runs (apply_binary op l r) addr v stack fits hv room h holds =
        let (tmp2, h2, hs) = >>=-eq-ok (meaning cx l) _ hv in
        let (tmp1, h1, hb) = >>=-eq-ok (meaning cx r) _ hs in
        let ops : List ℕ = binary_code op ∷ [] in
        let (holds_r, hr) = part_two addr (code l) (code r ++ ops) h holds in
        let a : ℕ = addr + length (code l) in
        let (holds_op, ho) = part_two a (code r) ops hr holds_r in
        glue (opcodes l) (opcodes r + 1) addr (code l) (code r ++ ops) stack (tmp2 ∷ stack)
          (v ∷ stack)
          (compile-Runs l addr tmp2 stack fits.0 h2 (omega arith) (omega arith)
            (Holds-front cx.space addr (code l) _ holds))
          (glue (opcodes r) 1 a (code r) ops (tmp2 ∷ stack) (tmp1 ∷ tmp2 ∷ stack) (v ∷ stack)
            (compile-Runs r a tmp1 (tmp2 ∷ stack) fits.1 h1 (omega arith) (omega arith)
              (Holds-front cx.space a (code r) _ holds_r))
            (one_round (a + length (code r)) 1 (tmp1 ∷ tmp2 ∷ stack) (v ∷ stack) (omega arith) ho (
              step-binary cx op (a + length (code r)) tmp1 tmp2 v stack (omega (arith, depth_pos l))
                hb holds_op
              ∙ ground arith)))

  -- An expression over numbers, registers, memory and the unary and binary operators, whose
  -- numbers fit their opcodes, compiled to postfix code that memory holds at `addr` and that ends
  -- within the address space: whenever the expression has a value and needs a stack of at most 63
  -- words above the initial one, `dwarf_eval_expr` on that code returns the value, in one round
  -- for each opcode and one to stop.
  pub eval_expr-code :
      (e : Expr) (stack_val addr v : ℕ)
      → Fits e
      → meaning cx e ≡ ok v
      → depth e ≤ 63
      → addr + length (code e) < word_mod
      → Holds cx.space addr (code e)
      → dwarf_eval_expr cx (opcodes e + 1) stack_val addr (length (code e)) ≡ ok (value v)
  unfolding dwarf_eval_expr
  eval_expr-code e stack_val addr v fits hv room h holds =
      let end_addr : ℕ = addr + length (code e) in
      let wrap : (addr + length (code e)) % word_mod ≡ end_addr = mod-eq_of_lt h in
      let runs : Runs cx end_addr (opcodes e) (at addr (stack_val ∷ []))
          (at end_addr (v ∷ stack_val ∷ [])) =
        compile-Runs end_addr h e addr v (stack_val ∷ []) fits hv (omega arith) (le_refl _) holds in
      rw wrap (
        eval_loop-Runs cx end_addr (opcodes e) 1 (at addr (stack_val ∷ []))
          (at end_addr (v ∷ stack_val ∷ [])) runs
        ∙ eval_loop-stop cx end_addr (v ∷ stack_val ∷ []))
