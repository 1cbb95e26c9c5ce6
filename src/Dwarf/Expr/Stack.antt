-- ===== src/Dwarf/Expr/Stack.antt =====
-- src/dwarf/Gexpr.c: the operand stack, `push`, `pop` and `pick`. The list has the top first: `tos`
-- is its length and `stack[tos - 1 - n]` its element `n`.
use libunwind.Prelude.{ℕ, leb, if◌then◌else◌, List, [], ◌∷◌, length, get_elem?, none, some}
use libunwind.Result.{Result, ok, err, inval}

abbrev pub max_expr_stack_size : ℕ
max_expr_stack_size = 64

abbrev pub push : ℕ → List ℕ → Result (List ℕ)
push x stack = if leb max_expr_stack_size (length stack) then err inval else ok (x ∷ stack)

-- `tos - 1` wraps at `tos == 0`, and then is not below the stack's size.
abbrev pub pop : List ℕ → Result (ℕ × List ℕ)
pop [] = err inval
pop (x ∷ stack) = ok (x, stack)

abbrev pub pick : ℕ → List ℕ → Result ℕ
pick n stack = elim (get_elem? stack n) [ none ↦ err inval | some x ↦ ok x ]
