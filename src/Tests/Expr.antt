-- ===== src/Tests/Expr.antt =====
-- Evaluating DWARF expressions.
use libunwind.Prelude.{ℕ, ◌≡◌, ◌≢◌, ◌%◌, ◌^◌, ◌*◌, refl, arith, List, [], ◌∷◌}
use libunwind.Result.{ok, stop, out_of_fuel}
use libunwind.Dwarf.Read.{dwarf_readu8}
use libunwind.Dwarf.Read.Bytes.{Holds, little}
use libunwind.Dwarf.Read.Byte.{Word, bytes}
use libunwind.Dwarf.Expr.Alu.{mul, minus, le, ge, eq, lt, gt, ne, binary}
use libunwind.Dwarf.Expr.Machine.{Context, value, goto, exec_deref_size}
use libunwind.Dwarf.Expr.Eval.{dwarf_eval_expr}
use libunwind.Dwarf.Expr.Compile.{Expr, small, register, apply_binary, code, meaning}
use libunwind.Dwarf.Expr.Correct.{eval_expr-code}
use libunwind.Prelude.Int.{pos, negsuc, to_word}
use libunwind.Dwarf.Expr.Order.{push_both, exec_binary-order}
use libunwind.Dwarf.Expr.Sized.{first, deref_size-little_endian}
use libunwind.Dwarf.Expr.Looping.{eval_expr-skip_self}
use libunwind.Tests.Memory.{memory}

-- (register 1 + 8) - 5 * 6
abbrev formula : Expr
formula = apply_binary minus (register 1 (0x08 ∷ [])) (apply_binary mul (small 5) (small 6))

-- Every register holds 100.
abbrev context : List ℕ → Context
context bs = record { space = memory bs; regnum_map = 0 ∷ 1 ∷ []; get_reg = λ r. ok 100 }

formula-Holds : Holds (memory (code formula)) 0 (code formula)
unfolding dwarf_readu8
formula-Holds = (
  omega arith,
  refl,
  (
    omega arith,
    refl,
    (omega arith, refl, (omega arith, refl, (omega arith, refl, (omega arith, refl, tt)))),
  ),
)

formula-meaning : meaning (context (code formula)) formula ≡ ok 78
unfolding binary
formula-meaning = refl

eval_expr-code_example : dwarf_eval_expr (context (code formula)) 6 0 0 6 ≡ ok (value 78)
eval_expr-code_example =
    eval_expr-code (context (code formula)) formula 0 0 78 (omega arith) formula-meaning
      (omega arith) (omega arith) formula-Holds

abbrev word : Word
word = record { b0 = 1; b1 = 2; b2 = 3; b3 = 4; b4 = 5; b5 = 6; b6 = 7; b7 = 8 }

word-Holds : Holds (memory (bytes word)) 0 (bytes word)
unfolding dwarf_readu8
word-Holds = (
  omega arith,
  refl,
  (
    omega arith,
    refl,
    (
      omega arith,
      refl,
      (
        omega arith,
        refl,
        (omega arith, refl, (omega arith, refl, (omega arith, refl, (omega arith, refl, tt)))),
      ),
    ),
  ),
)

deref_size-little_endian_example :
    (v : ℕ) × (exec_deref_size (memory (bytes word)) 5 50 (0 ∷ []) ≡ goto 50 (v ∷ []))
    × (v % 2 ^ (8 * 5) ≡ 0)
    × (v ≢ little (first 5 (bytes word)))
deref_size-little_endian_example =
    deref_size-little_endian (memory (bytes word)) 0 word word-Holds 5 50 [] refl (omega arith)
      (omega arith) (omega arith) (omega arith)

abbrev loop : List ℕ
loop = 0x2f ∷ 0xfd ∷ 0xff ∷ []

loop-Holds : Holds (memory loop) 0 loop
unfolding dwarf_readu8
loop-Holds = (omega arith, refl, (omega arith, refl, (omega arith, refl, tt)))

eval_expr-skip_self_example : dwarf_eval_expr (context loop) 1000 0 0 3 ≡ stop out_of_fuel
eval_expr-skip_self_example =
    eval_expr-skip_self (context loop) 0 (omega arith) 1000 0 refl loop-Holds

exec_binary-order_example :
    (push_both lt 8 (to_word (negsuc 6)) (to_word (pos 3)) (5 ∷ []) ≡ goto 8 (1 ∷ 5 ∷ []))
    × (push_both le 8 (to_word (negsuc 6)) (to_word (pos 3)) (5 ∷ []) ≡ goto 8 (1 ∷ 5 ∷ []))
    × (push_both gt 8 (to_word (negsuc 6)) (to_word (pos 3)) (5 ∷ []) ≡ goto 8 (0 ∷ 5 ∷ []))
    × (push_both ge 8 (to_word (negsuc 6)) (to_word (pos 3)) (5 ∷ []) ≡ goto 8 (0 ∷ 5 ∷ []))
    × (push_both eq 8 (to_word (negsuc 6)) (to_word (pos 3)) (5 ∷ []) ≡ goto 8 (0 ∷ 5 ∷ []))
    × (push_both ne 8 (to_word (negsuc 6)) (to_word (pos 3)) (5 ∷ []) ≡ goto 8 (1 ∷ 5 ∷ []))
exec_binary-order_example =
    exec_binary-order 8 (5 ∷ []) (negsuc 6) (pos 3) (omega arith) (omega arith) (omega arith)
