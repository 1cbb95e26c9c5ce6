-- ===== src/Dwarf/Expr/Order.antt =====
-- The signed operators on a 64-bit address space: comparison, division and the arithmetic shift.
use libunwind.Prelude.{
  ℕ, zero, suc, ◌+◌, ◌^◌, ◌<◌, ◌≡◌, ◌≢◌, refl, arith, Bool, not, ◌&&◌, leb, ◌==◌, List, ◌∷◌, length,
}
use libunwind.Prelude.Int.{
  ℤ, pos, negsuc, pos_part, neg_part, ltb_ℤ, leb_ℤ, quot, shift_right, signed, to_word,
}
use libunwind.Result.{Result, ok, ◌>>=◌}
use libunwind.Dwarf.Expr.Stack.{push}
use libunwind.Dwarf.Expr.Machine.{Outcome, goto, exec_binary}
use libunwind.Dwarf.Expr.Alu.{Binary, div, shra, le, ge, eq, lt, gt, ne, from_bool, divide, binary}

-- A number of 64 bits with its sign.
abbrev pub Fits64 : ℤ → Type 0
Fits64 (pos n) = n < 2 ^ 63
Fits64 (negsuc n) = n < 2 ^ 63

signed-to_word : (z : ℤ) → Fits64 z → signed 64 (to_word z) ≡ z
signed-to_word (pos n) h = ground arith
signed-to_word (negsuc n) h = ground arith

abbrev eqb_ℤ : ℤ → ℤ → Bool
eqb_ℤ a b = leb_ℤ b a && leb_ℤ a b

binary-order :
    (a b : ℤ)
    → Fits64 a
    → Fits64 b
    → (binary 8 lt (to_word b) (to_word a) ≡ ok (from_bool (ltb_ℤ a b)))
      × (binary 8 le (to_word b) (to_word a) ≡ ok (from_bool (leb_ℤ a b)))
      × (binary 8 gt (to_word b) (to_word a) ≡ ok (from_bool (ltb_ℤ b a)))
      × (binary 8 ge (to_word b) (to_word a) ≡ ok (from_bool (leb_ℤ b a)))
      × (binary 8 eq (to_word b) (to_word a) ≡ ok (from_bool (eqb_ℤ a b)))
      × (binary 8 ne (to_word b) (to_word a) ≡ ok (from_bool (not (eqb_ℤ a b))))
unfolding binary
binary-order a b ha hb =
    let back_a : signed 64 (to_word a) ≡ a = signed-to_word a ha in
    let back_b : signed 64 (to_word b) ≡ b = signed-to_word b hb in
    (
      rw (back_a, back_b),
      rw (back_a, back_b),
      rw (back_a, back_b),
      rw (back_a, back_b),
      rw (back_a, back_b),
      rw (back_a, back_b),
    )

-- An operator behind two numbers, the first pushed first.
abbrev pub push_both : Binary → (addr first second : ℕ) → List ℕ → Result Outcome
push_both op addr first second rest = do
  s ← push first rest
  s ← push second s
  exec_binary 8 op addr s

push_both-goto :
    (op : Binary) (addr first second r : ℕ) (rest : List ℕ)
    → length rest < 63
    → binary 8 op second first ≡ ok r
    → push_both op addr first second rest ≡ goto addr (r ∷ rest)
unfolding exec_binary
push_both-goto op addr first second r rest room e =
    let one : leb 64 (length rest) ≡ Bool.false = ground arith in
    let two : leb 64 (suc (length rest)) ≡ Bool.false = ground arith in rw (one, two, e, one)

-- On a 64-bit space and a stack with room for two numbers, a 64-bit number `a` is pushed, then a
-- 64-bit number `b`, then one of the six comparisons is executed: it succeeds, and leaves on the
-- stack, in the place of both, 1 or 0 as `a` compares with `b`.
pub exec_binary-order :
    (addr : ℕ) (rest : List ℕ) (a b : ℤ)
    → length rest < 63
    → Fits64 a
    → Fits64 b
    → (push_both lt addr (to_word a) (to_word b) rest ≡ goto addr (from_bool (ltb_ℤ a b) ∷ rest))
      × (push_both le addr (to_word a) (to_word b) rest ≡ goto addr (from_bool (leb_ℤ a b) ∷ rest))
      × (push_both gt addr (to_word a) (to_word b) rest ≡ goto addr (from_bool (ltb_ℤ b a) ∷ rest))
      × (push_both ge addr (to_word a) (to_word b) rest ≡ goto addr (from_bool (leb_ℤ b a) ∷ rest))
      × (push_both eq addr (to_word a) (to_word b) rest ≡ goto addr (from_bool (eqb_ℤ a b) ∷ rest))
      × (push_both ne addr (to_word a) (to_word b) rest
          ≡ goto addr (from_bool (not (eqb_ℤ a b)) ∷ rest))
exec_binary-order addr rest a b room ha hb =
    let (is_lt, is_le, is_gt, is_ge, is_eq, is_ne) = binary-order a b ha hb in
    (
      push_both-goto lt addr _ _ _ rest room is_lt,
      push_both-goto le addr _ _ _ rest room is_le,
      push_both-goto gt addr _ _ _ rest room is_gt,
      push_both-goto ge addr _ _ _ rest room is_ge,
      push_both-goto eq addr _ _ _ rest room is_eq,
      push_both-goto ne addr _ _ _ rest room is_ne,
    )

to_word-nonzero : (z : ℤ) → Fits64 z → z ≢ pos 0 → (to_word z == 0) ≡ Bool.false
to_word-nonzero (pos zero) h k = absurd (k refl)
to_word-nonzero (pos (suc n)) h k = ground arith
to_word-nonzero (negsuc n) h k = ground arith

nonzero_parts : (z : ℤ) → z ≢ pos 0 → leb (pos_part z + neg_part z) 0 ≡ Bool.false
nonzero_parts (pos zero) k = absurd (k refl)
nonzero_parts (pos (suc n)) k = ground arith
nonzero_parts (negsuc n) k = ground arith

below_top : (z : ℤ) → Fits64 z → leb (2 ^ 63) (pos_part z) ≡ Bool.false
below_top (pos n) h = ground arith
below_top (negsuc n) h = ground arith

fits-divide : (a b : ℤ) → b ≢ pos 0 → Fits64 (quot a b) → divide a b ≡ ok (to_word (quot a b))
fits-divide a b k h = rw (nonzero_parts b k, below_top (quot a b) h)

-- On a 64-bit space, with a 64-bit number `a` pushed before a 64-bit number `b`, DW_OP_div pushes
-- the quotient of `a` by `b`, cut off towards zero, where `b` is not zero and the quotient fits;
-- DW_OP_shra by less than 64 pushes `a` shifted right, rounded down.
pub binary-quotient :
    (a b : ℤ) (k : ℕ)
    → Fits64 a
    → Fits64 b
    → b ≢ pos 0
    → Fits64 (quot a b)
    → k < 64
    → (binary 8 div (to_word b) (to_word a) ≡ ok (to_word (quot a b)))
      × (binary 8 shra k (to_word a) ≡ ok (to_word (shift_right a k)))
unfolding binary
binary-quotient a b k ha hb nonzero fits small = (
  rw (to_word-nonzero b hb nonzero, signed-to_word a ha, signed-to_word b hb)
      (fits-divide a b nonzero fits),
  rw (signed-to_word a ha) (ground arith),
)
